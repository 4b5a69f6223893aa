-- ===== src/Hub/Storing.antt =====
-- What survives a restart: `stored`, `from_stored`, `restore` and `flush` of
-- src/looma/orchestrator/agents.py, and src/looma/orchestrator/state.py. A field that a stored
-- record lacks is `none`; JSON gives back what it was given, and a write ends well or not at all.
pub mod Restart
use looma.Base.{
  eqb, if◌then◌else◌, string_eq, nat_eq, length, ℕ, String, Bool, true, false, Option, none, some,
  List, [], ◌∷◌,
}
use looma.Base.Int.{pos, ℤ}
use looma.Base.Texts.{show, read_from}
use looma.Base.Dict.{values, insert, Dict}
use looma.Placement.{Resources}
use looma.Hub.{AgentHub, TaskRecord, GroupRecord, ResultFile}

pub record StoredTask : Type 0 where
  pub task_id : Option String
  pub node_id : Option String
  pub command : List String
  pub state : Option String
  pub error : Option String
  pub exit_code : Option ℤ
  pub devices : List ℕ
  pub seconds : Option ℕ
  pub submitted_at : Option ℕ
  pub results : List ResultFile
  pub resources : Option Resources
  pub group_id : Option String
  pub rank : Option ℕ
  pub adopted : Option Bool

-- The ranks are texts, as the keys of JSON are.
pub record StoredGroup : Type 0 where
  pub group_id : Option String
  pub label : Option String
  pub tasks : Dict String String
  pub nodes : Dict String String
  pub submitted_at : Option ℕ

pub record Snapshot : Type 0 where
  pub tasks : List StoredTask
  pub groups : List StoredGroup

-- `raw.get(key, default)`
abbrev pub get_or : {A : Type 0} → A → Option A → A
get_or d none = d
get_or d (some a) = a

-- `TaskRecord.stored`
unfoldable pub stored_task : TaskRecord → StoredTask
stored_task t = record {
  task_id = some t.task_id;
  node_id = some t.node_id;
  command = t.command;
  state = some t.state;
  error = some t.error;
  exit_code = some t.exit_code;
  devices = t.devices;
  seconds = some t.seconds;
  submitted_at = some t.submitted_at;
  results = t.results;
  resources = t.resources;
  group_id = some t.group_id;
  rank = some t.rank;
  adopted = some t.adopted;
}

-- `TaskRecord.from_stored`; a `KeyError` is `none`.
unfoldable pub task_from : ℕ → StoredTask → Option TaskRecord
task_from now raw = elim raw.task_id [
  | none ↦ none
  | some id ↦ some (record {
    task_id = id;
    node_id = get_or "" raw.node_id;
    command = raw.command;
    state = get_or "pending" raw.state;
    error = get_or "" raw.error;
    exit_code = get_or (pos 0) raw.exit_code;
    devices = raw.devices;
    seconds = get_or 0 raw.seconds;
    results = raw.results;
    submitted_at = get_or now raw.submitted_at;
    resources = raw.resources;
    group_id = get_or "" raw.group_id;
    rank = get_or 0 raw.rank;
    adopted = get_or false raw.adopted;
  })
]

-- `{str(r): t for r, t in ….items()}`
unfoldable pub show_ranks : Dict ℕ String → Dict String String
show_ranks [] = []
show_ranks ((rank, id) ∷ d) = (show rank, id) ∷ show_ranks d

-- `{int(r): t for r, t in ….items()}`, for ranks that are texts of digits.
unfoldable pub read_ranks : Dict ℕ String → Dict String String → Dict ℕ String
read_ranks d [] = d
read_ranks d ((rank, id) ∷ raw) = read_ranks (insert (read_from 0 rank) id d) raw

-- `GroupRecord.stored`
unfoldable pub stored_group : GroupRecord → StoredGroup
unfolding show_ranks
stored_group g = record {
  group_id = some g.group_id;
  label = some g.label;
  tasks = show_ranks g.tasks;
  nodes = show_ranks g.nodes;
  submitted_at = some g.submitted_at;
}

-- `GroupRecord.from_stored`
unfoldable pub group_from : ℕ → StoredGroup → Option GroupRecord
unfolding read_ranks
group_from now raw = elim raw.group_id [
  | none ↦ none
  | some id ↦ some (record {
    group_id = id;
    label = get_or "" raw.label;
    tasks = read_ranks [] raw.tasks;
    nodes = read_ranks [] raw.nodes;
    submitted_at = get_or now raw.submitted_at;
  })
]

-- The file of the store, as a reader finds it.
pub data StateFile : Type 0 where
  missing unreadable : StateFile
  image : (format : ℕ) → Snapshot → StateFile

abbrev pub format : ℕ
format = 1

abbrev pub nothing_stored : Snapshot
nothing_stored = record { tasks = []; groups = [] }

-- `StateStore.load`
unfoldable pub load : StateFile → Snapshot
load missing = nothing_stored
load unreadable = nothing_stored
load (image f s) = if eqb f format then s else nothing_stored

-- `StateStore.save`: the new file takes the old one's place at once, unless the disk fails before.
unfoldable pub save : (disk_fails : Bool) → Snapshot → StateFile → StateFile
save true s file = file
save false s file = image format s

unfoldable pub store_tasks : List TaskRecord → List StoredTask
store_tasks [] = []
store_tasks (t ∷ ts) = stored_task t ∷ store_tasks ts

unfoldable pub store_groups : List GroupRecord → List StoredGroup
store_groups [] = []
store_groups (g ∷ gs) = stored_group g ∷ store_groups gs

unfoldable pub snapshot_of : AgentHub → Snapshot
unfolding store_tasks store_groups
snapshot_of h = record {
  tasks = store_tasks (values h.tasks);
  groups = store_groups (values h.groups);
}

-- `flush`, of a hub that has a store.
unfoldable pub flush : (disk_fails : Bool) → AgentHub → StateFile → AgentHub × StateFile
unfolding snapshot_of save
flush disk_fails h file =
    if h.dirty
    then (record h { dirty = false }, save disk_fails (snapshot_of h) file)
    else (h, file)

-- The loops of `restore`: an entry that cannot be read is passed over.
unfoldable pub restore_groups :
    ℕ → List StoredGroup → Dict String GroupRecord → Dict String GroupRecord
restore_groups now [] d = d
restore_groups now (raw ∷ rest) d = elim (group_from now raw) [
  | none ↦ restore_groups now rest d
  | some g ↦ restore_groups now rest (insert g.group_id g d)
]

unfoldable pub restore_tasks : ℕ → List StoredTask → Dict String TaskRecord → Dict String TaskRecord
restore_tasks now [] d = d
restore_tasks now (raw ∷ rest) d = elim (task_from now raw) [
  | none ↦ restore_tasks now rest d
  | some t ↦ restore_tasks now rest (insert t.task_id t d)
]

-- `restore`, of a hub that has a store.
unfoldable pub restore : ℕ → StateFile → AgentHub → AgentHub × ℕ
unfolding load restore_groups restore_tasks
restore now file h =
    let raw = load file in
    let tasks = restore_tasks now raw.tasks h.tasks in
    (record h { groups = restore_groups now raw.groups h.groups; tasks = tasks }, length tasks)
