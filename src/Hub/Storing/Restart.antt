-- ===== src/Hub/Storing/Restart.antt =====
-- A hub that is stored and restored, src/looma/orchestrator/agents.py and state.py.
use mathlib.Core.List.{append-nil}
use looma.Base.{
  length, false, true, string_eq, nat_eq, ℕ, String, ◌≡◌, refl, sym, ap, ◌∙◌, some, [], ◌∷◌, ◌++◌,
  arith,
}
use looma.Base.Texts.{read_from-show}
use looma.Base.Dict.{values, insert, Dict, NodupKeys, Entries, insert-append}
use looma.Hub.{new_hub, AgentHub, TaskRecord, GroupRecord}
use looma.Hub.Storing.{
  snapshot_of, save, load, restore, flush, StateFile, stored_task, task_from, show_ranks,
  read_ranks, stored_group, group_from, store_tasks, store_groups, restore_groups, restore_tasks,
}

task_from-stored_task : (now : ℕ) (t : TaskRecord) → task_from now (stored_task t) ≡ some t
unfolding task_from stored_task
task_from-stored_task now t = refl

read_ranks-show_ranks :
    (d r : Dict ℕ String) → NodupKeys (d ++ r) → read_ranks d (show_ranks r) ≡ d ++ r
unfolding read_ranks show_ranks
read_ranks-show_ranks d [] u = sym (append-nil d)
read_ranks-show_ranks d ((rank, id) ∷ r) u =
    let (same, v) = insert-append rank id d r u in
    ap (λ n. read_ranks (insert n id d) (show_ranks r)) (read_from-show rank)
    ∙ read_ranks-show_ranks (insert rank id d) r v
    ∙ same

-- A record whose ranks are listed once.
abbrev pub HasRanks : GroupRecord → Type 0
HasRanks g = NodupKeys g.tasks × NodupKeys g.nodes

group_from-stored_group :
    (now : ℕ) (g : GroupRecord) → HasRanks g → group_from now (stored_group g) ≡ some g
unfolding group_from stored_group
group_from-stored_group now g h =
    ground (arith, read_ranks-show_ranks [] g.tasks h.0, read_ranks-show_ranks [] g.nodes h.1)

abbrev pub TasksNamed : Dict String TaskRecord → Type 0
TasksNamed = Entries (λ id t. t.task_id ≡ id)

abbrev pub GroupsNamed : Dict String GroupRecord → Type 0
GroupsNamed = Entries (λ id g. (g.group_id ≡ id) × HasRanks g)

restore_tasks-store_tasks :
    (now : ℕ) (d r : Dict String TaskRecord)
    → NodupKeys (d ++ r)
    → TasksNamed r
    → restore_tasks now (store_tasks (values r)) d ≡ d ++ r
unfolding restore_tasks store_tasks task_from stored_task
restore_tasks-store_tasks now d [] u named = sym (append-nil d)
restore_tasks-store_tasks now d ((id, t) ∷ r) u (name, named) =
    let (same, v) = insert-append id t d r u in
    ap (λ k. restore_tasks now (store_tasks (values r)) (insert k t d)) name
    ∙ restore_tasks-store_tasks now (insert id t d) r v named
    ∙ same

restore_groups-store_groups :
    (now : ℕ) (d r : Dict String GroupRecord)
    → NodupKeys (d ++ r)
    → GroupsNamed r
    → restore_groups now (store_groups (values r)) d ≡ d ++ r
unfolding restore_groups store_groups
restore_groups-store_groups now d [] u named = sym (append-nil d)
restore_groups-store_groups now d ((id, g) ∷ r) u (name, named) =
    let (same, v) = insert-append id g d r u in
    rw (group_from-stored_group now g name.1, restore_groups)
      (ap (λ k. restore_groups now (store_groups (values r)) (insert k g d)) name.0
        ∙ restore_groups-store_groups now (insert id g d) r v named
        ∙ same)

-- What a process that starts anew makes of a file.
abbrev pub restarted : ℕ → StateFile → AgentHub × ℕ
restarted now file = restore now file new_hub

-- A hub with changes that is written and read again by a new process has the tasks and the groups
-- that it had, in their order, whatever stood in the file before. If the disk fails, the file is as it
-- was, and a second flush writes nothing either, though nothing was stored.
pub restore-flush :
    (now : ℕ) (h : AgentHub) (file : StateFile)
    → h.dirty ≡ true
    → NodupKeys h.tasks
    → TasksNamed h.tasks
    → NodupKeys h.groups
    → GroupsNamed h.groups
    → (restarted now (flush false h file).1
        ≡ (record new_hub { tasks = h.tasks; groups = h.groups }, length h.tasks))
      × ((flush true h file).1 ≡ file)
      × ((flush false (flush true h file).0 file).1 ≡ file)
unfolding flush restore load save snapshot_of
restore-flush now h file dirty u named v groups =
    let tasks = restore_tasks-store_tasks now [] h.tasks u named in
    let gs = restore_groups-store_groups now [] h.groups v groups in
    (ground (arith, dirty, tasks, gs), ground (arith, dirty), ground (arith, dirty))
