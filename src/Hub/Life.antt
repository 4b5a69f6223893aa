-- ===== src/Hub/Life.antt =====
-- The life of a task in the hub, src/looma/orchestrator/agents.py, as an abstract machine: a task
-- appears, is told of, and leaves. What it is does not change while it lives.
pub mod Ended
pub mod Reported
pub mod Changes
pub mod Refines
use looma.Base.{ℕ, String, ◌≡◌, Bool, Option, none, some, List, [], ◌∷◌}
use looma.Base.Dict.{Dict, NodupKeys}
use looma.Placement.{Resources}
use looma.Hub.{AgentHub, AgentError, TaskRecord, GroupRecord}
use looma.Hub.Tasks.{Job, submit, stop, release}
use looma.Hub.Grouping.{RankJob, submit_group}
use looma.Hub.Ending.{stop_group, forget_group, prune}
use looma.Hub.Reports.{TaskState, Telemetry, on_task_state, on_telemetry}

-- The same work on the same node, whatever has become of it.
pub record SameTask (t u : TaskRecord) : Type 0 where
  pub same_id : u.task_id ≡ t.task_id
  pub same_node : u.node_id ≡ t.node_id
  pub same_command : u.command ≡ t.command
  pub same_resources : u.resources ≡ t.resources
  pub same_group : u.group_id ≡ t.group_id
  pub same_rank : u.rank ≡ t.rank
  pub same_start : u.submitted_at ≡ t.submitted_at

-- What an operation may do to the table: add tasks, ask the nodes and leave the table as it is, tell
-- what became of tasks, or drop them.
pub data Kind : Type 0 where
  adds asks tells drops : Kind

-- What happens to one task in an operation of a kind: what stands is not changed by one that adds, asks
-- or drops, and remains the same task in one that tells; what is added waits for its node.
pub data Step : Kind → Option TaskRecord → Option TaskRecord → Type 0 where
  absent : (k : Kind) → Step k none none
  added : (t : TaskRecord) → t.state ≡ "pending" → Step adds none (some t)
  stays : (t : TaskRecord) → Step adds (some t) (some t)
  waits : (t : TaskRecord) → Step asks (some t) (some t)
  adopted : (t : TaskRecord) → Step tells none (some t)
  moves : {t u : TaskRecord} → SameTask t u → Step tells (some t) (some u)
  kept : (t : TaskRecord) → Step drops (some t) (some t)
  leaves : (t : TaskRecord) → Step drops (some t) none

-- What callers and nodes ask of the hub.
pub data Op : Type 0 where
  submits : Job → (node_id fresh : String) → Op
  submits_group :
      Job
      → (size : ℕ) → (node_ids : List String) → Option (List RankJob)
      → (label fresh : String) → Op
  stops releases stops_group forgets_group : (id : String) → Op
  prunes : (older_than : ℕ) → Op
  reports : TaskState → Op
  telemeters : Telemetry → Op

abbrev pub kind_of : Op → Kind
kind_of (submits job node_id fresh) = adds
kind_of (submits_group job size node_ids per_rank label fresh) = adds
kind_of (stops id) = asks
kind_of (releases id) = drops
kind_of (stops_group id) = asks
kind_of (forgets_group id) = drops
kind_of (prunes older_than) = drops
kind_of (reports s) = tells
kind_of (telemeters r) = tells

-- The life of one task through a list of operations: one step for each, of its kind.
pub data Lives : List (Op × ℕ) → Option TaskRecord → Option TaskRecord → Type 0 where
  here : (o : Option TaskRecord) → Lives [] o o
  next :
      {ops : List (Op × ℕ)} {p q : Option TaskRecord} (op : Op) (now : ℕ) (o : Option TaskRecord)
      → Step (kind_of op) o p
      → Lives ops p q
      → Lives ((op, now) ∷ ops) o q

module _ (digest : List ℕ → String) (is_local : String → Option Bool) where
  unfoldable pub run : Op → ℕ → AgentHub → AgentHub
  run (submits job node_id fresh) now h = (submit digest job node_id fresh now h).0
  run (submits_group job size node_ids per_rank label fresh) now h =
      (submit_group digest job size node_ids per_rank label fresh now h).0
  run (stops id) now h = (stop id "cancelled" h).0
  run (releases id) now h = (release id now h).0
  run (stops_group id) now h = (stop_group id "cancelled" h).0
  run (forgets_group id) now h = (forget_group id now h).0
  run (prunes older_than) now h = (prune now older_than h).0
  run (reports s) now h = on_task_state s "" now h
  run (telemeters r) now h = on_telemetry is_local r now h

  -- Operations with the times at which they run.
  unfoldable pub run_all : List (Op × ℕ) → AgentHub → AgentHub
  unfolding run
  run_all [] h = h
  run_all ((op, now) ∷ ops) h = run_all ops (run op now h)
