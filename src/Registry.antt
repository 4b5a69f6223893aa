-- ===== src/Registry.antt =====
-- What a node runs and which cards it has left, agent/looma_agent/tasks/registry.py.
-- A method that holds the lock throughout is one function. `submit`, `_reap` and `release` let it
-- go in between, so each of their locked parts is a function of its own, and other calls may come
-- between two of them. Processes, directories and environments are not modelled.
pub mod Cards
pub mod Submission
pub mod Sharing
mod Tests
use looma.Base.Int.{ℤ, pos, negsuc, pos_part}
use looma.Base.Filter.{filter, count_if}
use looma.Base.Dict.{values, lookup, insert, erase, Dict}
use looma.Base.{
  ltb, eqb, if◌then◌else◌, is_some, Result, ok, err, ◌==◌, contains, string_eq, nat_eq, length,
  take, is_nil, ℕ, zero, suc, ◌+◌, String, Bool, true, false, not, ◌||◌, none, some, List, [], ◌∷◌,
  ◌++◌,
}

pub record Task : Type 0 where
  pub finished : Bool
  pub devices : List ℕ

pub record TaskRegistry : Type 0 where
  pub total_gpus : ℕ
  pub tasks : Dict String Task
  pub held : Dict String (List ℕ)
  pub claimed : List String
  pub unusable : String
  pub draining : String

-- `TaskRefused`, where this module raises it.
pub data Refusal : Type 0 where
  node_unusable : String → Refusal
  node_draining : String → Refusal
  cannot_isolate already_here : Refusal
  no_cards : ℕ → ℕ → Refusal

-- `__init__`; `unusable` is empty if the root could be made.
pub new_registry : ℤ → String → TaskRegistry
new_registry total_gpus unusable = record {
  total_gpus = pos_part total_gpus;
  tasks = [];
  held = [];
  claimed = [];
  unusable = unusable;
  draining = "";
}

-- `{d for devices in held.values() for d in devices}`
unfoldable pub taken : Dict String (List ℕ) → List ℕ
taken [] = []
taken ((_, devices) ∷ held) = devices ++ taken held

-- `range(first, first + n)`
unfoldable pub range : ℕ → ℕ → List ℕ
range first zero = []
range first (suc n) = first ∷ range (first + 1) n

abbrev pub is_free : Dict String (List ℕ) → ℕ → Bool
is_free held d = not (contains (taken held) d)

-- `free_devices`
pub free_devices : TaskRegistry → List ℕ
free_devices s = filter (is_free s.held) (range 0 s.total_gpus)

-- `_take_devices`, for a number of cards above 0
pub take_some : String → ℕ → TaskRegistry → Result Refusal (List ℕ × TaskRegistry)
unfolding free_devices
take_some id wanted s =
    let free = free_devices s in
    if ltb (length free) wanted
    then err (no_cards (length free) s.total_gpus)
    else ok (take wanted free, record s { held = insert id (take wanted free) s.held })

-- `_take_devices`
pub take_devices : String → ℤ → TaskRegistry → Result Refusal (List ℕ × TaskRegistry)
unfolding take_some
take_devices id (pos zero) s = ok ([], s)
take_devices id (pos (suc n)) s = take_some id (suc n) s
take_devices id (negsuc n) s = ok ([], s)

-- `_release_devices`
pub release_devices : String → TaskRegistry → TaskRegistry
release_devices id s = record s { held = erase id s.held }

-- `claimed.discard(id)`
unfoldable pub discard : String → List String → List String
discard id [] = []
discard id (x ∷ xs) = let rest = discard id xs in if id == x then rest else x ∷ rest

abbrev pub claim :
    String → Result Refusal (List ℕ × TaskRegistry) → Result Refusal (List ℕ × TaskRegistry)
claim id (ok (devices, s)) = ok (devices, record s { claimed = s.claimed ++ (id ∷ []) })
claim id (err why) = err why

-- The first half of `submit`, up to the end of the lock; `can_run` is what `ensure_can_run` says.
pub begin : Bool → String → ℤ → TaskRegistry → Result Refusal (List ℕ × TaskRegistry)
unfolding take_devices
begin can_run id gpus s =
    if not (s.unusable == "")
    then err (node_unusable s.unusable)
    else if not (s.draining == "")
    then err (node_draining s.draining)
    else if not can_run
    then err cannot_isolate
    else if is_some (lookup id s.tasks) || contains s.claimed id
    then err already_here
    else claim id (take_devices id gpus s)

-- `_undo`
pub undo : String → TaskRegistry → TaskRegistry
unfolding release_devices discard
undo id s = let s' = release_devices id s in record s' { claimed = discard id s'.claimed }

-- The end of `submit`, for a task that was started.
pub commit : String → List ℕ → TaskRegistry → TaskRegistry
unfolding discard
commit id devices s = record s {
  tasks = insert id (record { finished = false; devices = devices }) s.tasks;
  claimed = discard id s.claimed;
}

-- The task ends by itself.
pub end_task : String → TaskRegistry → TaskRegistry
end_task id s = elim (lookup id s.tasks) [
  | none ↦ s
  | some task ↦ record s { tasks = insert id (record task { finished = true }) s.tasks }
]

-- The first half of `release`: the task leaves the table, and with it its lock.
pub forget : String → TaskRegistry → Bool × TaskRegistry
forget id s = elim (lookup id s.tasks) [
  | none ↦ (false, s)
  | some task ↦ (true, record s { tasks = erase id s.tasks })
]

-- `claimed`
pub claimed_only : TaskRegistry → List String
claimed_only s = filter (λ id. not (is_some (lookup id s.tasks))) s.claimed

pub busy : TaskRegistry → ℕ
unfolding claimed_only
busy s = count_if (λ t. not t.finished) (values s.tasks) + length (claimed_only s)

-- `recount_devices`; the number of tasks in the way, or the new state.
pub recount_devices : ℤ → TaskRegistry → Result ℕ TaskRegistry
unfolding busy
recount_devices total s =
    if eqb (busy s) 0 then ok (record s { total_gpus = pos_part total }) else err (busy s)

pub record Snapshot : Type 0 where
  pub unusable : String
  pub tasks : ℕ
  pub running : ℕ
  pub gpus_total : ℕ
  pub gpus_free : ℕ

-- `snapshot`
pub snapshot : TaskRegistry → Snapshot
unfolding busy claimed_only free_devices
snapshot s = record {
  unusable = s.unusable;
  tasks = length s.tasks + length (claimed_only s);
  running = busy s;
  gpus_total = s.total_gpus;
  gpus_free = length (free_devices s);
}

-- `drain` sets the reason first; `drained` is what it waits for.
pub drain : String → TaskRegistry → TaskRegistry
drain reason s = record s { draining = reason }

pub drained : TaskRegistry → Bool
drained s = is_nil (filter (λ t. not t.finished) (values s.tasks))

-- `resume`
pub resume : TaskRegistry → TaskRegistry
resume s = record s { draining = "" }
