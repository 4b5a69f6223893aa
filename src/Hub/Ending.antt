-- ===== src/Hub/Ending.antt =====
-- How groups of the hub serve, stop and are forgotten, src/looma/orchestrator/agents.py. The answer
-- of a stage to `/health` is an argument: none for an `AgentError`, else the code of HTTP with the
-- status that the body names.
pub mod Pruning
pub mod Forgetting
use looma.Base.{
  ltb, eqb, if◌then◌else◌, is_some, Result, ok, err, ◌==◌, contains, string_eq, nat_eq, length, ℕ,
  ◌+◌, max, String, Bool, true, false, not, ◌&&◌, Option, none, some, List, [], ◌∷◌,
}
use looma.Base.Dict.{values, lookup, erase, Dict}
use looma.Base.Filter.{filter}
use looma.Hub.{
  AgentHub, AgentError, TaskRecord, GroupRecord, finished, send, no_group, TaskMessage,
  task_message,
}
use looma.Hub.Tasks.{touch, stop, release}
use looma.Hub.Grouping.{group_for}

abbrev pub answers : Option (ℕ × Option String) → Bool
answers none = false
answers (some (code, none)) = false
answers (some (code, some status)) = eqb code 200 && status == "ok"

abbrev pub or_nowhere : Option String → String
or_nowhere none = ""
or_nowhere (some id) = id

-- `serving`
unfoldable pub serving :
    (String → Option (ℕ × Option String)) → String → AgentHub → AgentHub × Option GroupRecord
serving health label h = elim (group_for label h) [
  | none ↦ (h, none)
  | some g ↦
      if contains h.ready_groups g.group_id
      then (h, some g)
      else if answers (health (or_nowhere (lookup 0 g.tasks)))
      then (record h { ready_groups = g.group_id ∷ h.ready_groups }, some g)
      else (h, none)
]

-- `set.discard`
abbrev pub discard : String → List String → List String
discard id = filter (λ x. not (x == id))

-- The loop of `stop_group`: a task that cannot be reached is passed over.
unfoldable pub stop_all : String → List String → AgentHub → AgentHub
stop_all reason [] h = h
stop_all reason (id ∷ ids) h = stop_all reason ids (stop id reason h).0

-- `stop_group`
unfoldable pub stop_group : String → String → AgentHub → AgentHub × Result AgentError GroupRecord
unfolding stop_all
stop_group group_id reason h = elim (lookup group_id h.groups) [
  | none ↦ (h, err (no_group group_id))
  | some g ↦ (
    stop_all reason (values g.tasks) (record h { ready_groups = discard group_id h.ready_groups }),
    ok g,
  )
]

-- A task that is not in the table counts as gone.
abbrev pub is_over : Option TaskRecord → Bool
is_over none = true
is_over (some t) = finished t

unfoldable pub all_over : AgentHub → List String → Bool
all_over h [] = true
all_over h (id ∷ ids) = is_over (lookup id h.tasks) && all_over h ids

-- `group_finished`
unfoldable pub group_finished : AgentHub → GroupRecord → Bool
unfolding all_over
group_finished h g = all_over h (values g.tasks)

-- One round of `forget_group`: the node is told, or the task is dropped without it.
unfoldable pub drop_task : String → ℕ → AgentHub → AgentHub
drop_task id now h =
    let (h', failed) = release id now h in
    if is_some failed then record h' { tasks = erase id h'.tasks } else h'

unfoldable pub drop_all : List String → ℕ → AgentHub → AgentHub
unfolding drop_task
drop_all [] now h = h
drop_all (id ∷ ids) now h = drop_all ids now (drop_task id now h)

-- What is left of the hub when a group's tasks are dropped.
unfoldable pub forget_record : String → AgentHub → AgentHub
forget_record group_id h =
    touch (record h {
      groups = erase group_id h.groups;
      ready_groups = discard group_id h.ready_groups;
    })

-- `forget_group`
unfoldable pub forget_group : String → ℕ → AgentHub → AgentHub × Result AgentError GroupRecord
unfolding drop_all forget_record
forget_group group_id now h = elim (lookup group_id h.groups) [
  | none ↦ (h, err (no_group group_id))
  | some g ↦ (forget_record group_id (drop_all (values g.tasks) now h), ok g)
]

-- `record.submitted_at < now - max(60, older_than)`, in milliseconds.
unfoldable pub is_stale : AgentHub → (now older_than : ℕ) → GroupRecord → Bool
is_stale h now older_than g = ltb (g.submitted_at + max 60_000 older_than) now && group_finished h g

unfoldable pub stale_groups :
    AgentHub → (now older_than : ℕ) → Dict String GroupRecord → List String
unfolding is_stale
stale_groups h now older_than [] = []
stale_groups h now older_than ((id, g) ∷ groups) =
    let rest = stale_groups h now older_than groups in
    if is_stale h now older_than g then id ∷ rest else rest

unfoldable pub forget_all : List String → ℕ → AgentHub → AgentHub
unfolding forget_group
forget_all [] now h = h
forget_all (id ∷ ids) now h = forget_all ids now (forget_group id now h).0

-- `prune`
unfoldable pub prune : (now older_than : ℕ) → AgentHub → AgentHub × ℕ
unfolding stale_groups forget_all
prune now older_than h =
    let stale = stale_groups h now older_than h.groups in (forget_all stale now h, length stale)

-- `route`
unfoldable pub route : TaskMessage → AgentHub → AgentHub
route message h = elim (lookup message.group_id h.groups) [
  | none ↦ h
  | some g ↦ send (or_nowhere (lookup message.to_rank g.nodes)) (task_message message) h
]
