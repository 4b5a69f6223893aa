-- ===== src/Hub/Grouping.antt =====
-- Groups of the hub, src/looma/orchestrator/agents.py. The new id, the clock, the digest of a file
-- and the answer of a stage to `/health` are arguments.
pub mod Starting
pub mod Whole
use looma.Base.{
  ltb, eqb, if◌then◌else◌, Result, ok, err, ◌==◌, string_eq, nat_eq, length, ℕ, zero, suc, ◌+◌,
  String, Bool, true, false, not, Option, none, some, List, [], ◌∷◌,
}
use looma.Base.Texts.{join, show}
use looma.Base.Dict.{values, lookup, insert, Dict}
use looma.Base.Filter.{filter}
use looma.Base.Sort.{sort_by}
use looma.Placement.{Resources}
use looma.Hub.{
  bad_message, AgentHub, AgentSession, AgentNode, AgentError, TaskRecord, GroupRecord, GroupMember,
  TaskGroup, new_task, finished, send, no_members, wrong_description, no_group, run_task,
  TaskMessage, task_message, no_task,
}
use looma.Hub.Placing.{choose_for_group}
use looma.Hub.Tasks.{is_message, Job, touch, send_all, run_message, input_messages, stop, release}

-- One entry of `per_rank`; what it does not say is empty.
pub record RankJob : Type 0 where
  pub command : List String
  pub env : Dict String String

abbrev shared_job : RankJob
shared_job = record { command = []; env = [] }

-- `per_rank[rank] if per_rank else {}`
abbrev pub mine : List RankJob → ℕ → RankJob
mine [] rank = shared_job
mine (r ∷ rs) zero = r
mine (r ∷ rs) (suc rank) = mine rs rank

abbrev pub or_command : List String → List String → List String
or_command [] shared = shared
or_command (c ∷ cs) shared = c ∷ cs

-- `{**env, **mine}`
abbrev pub merge_env : Dict String String → Dict String String → Dict String String
merge_env env [] = env
merge_env env ((k, v) ∷ more) = merge_env (insert k v env) more

-- The job of one member.
abbrev pub job_of : Job → RankJob → Job
job_of job r = record job {
  command = or_command r.command job.command;
  env = merge_env job.env r.env;
}

-- `f"{group_id}-r{rank}"`
unfoldable pub member_id : String → ℕ → String
member_id group_id rank = join (join group_id "-r") (show rank)

abbrev pub member_from : ℕ → String → Option AgentSession → GroupMember
member_from rank id none = record {
  rank = rank;
  node_id = id;
  peer_id = "";
  addrs = [];
  reachable = false;
  relay_rtt = 0;
}
member_from rank id (some session) = record {
  rank = rank;
  node_id = id;
  peer_id = session.node.peer_id;
  addrs = session.node.visible_addrs;
  reachable = session.node.reachable;
  relay_rtt = session.node.relay_rtt;
}

-- The first loop of `submit_group`, from a rank on: the members that every rank is told.
unfoldable pub members_from : AgentHub → ℕ → List String → List GroupMember
members_from h rank [] = []
members_from h rank (id ∷ ids) =
    member_from rank id (lookup id h.sessions) ∷ members_from h (rank + 1) ids

-- The tasks and the nodes of the record, by rank.
unfoldable pub ranks_from : (ℕ → String → String) → ℕ → List String → Dict ℕ String
ranks_from f rank [] = []
ranks_from f rank (id ∷ ids) = (rank, f rank id) ∷ ranks_from f (rank + 1) ids

unfoldable pub group_record : String → String → ℕ → List String → GroupRecord
unfolding ranks_from
group_record group_id label now chosen = record {
  group_id = group_id;
  label = label;
  tasks = ranks_from (λ rank _. member_id group_id rank) 0 chosen;
  nodes = ranks_from (λ _ id. id) 0 chosen;
  submitted_at = now;
}

module _ (digest : List ℕ → String) (job : Job) (group_id : String) (now : ℕ) where
  -- The record of one member's task.
  abbrev pub member_task : List RankJob → ℕ → String → TaskRecord
  member_task per_rank rank id =
      record (new_task (member_id group_id rank) id (job_of job (mine per_rank rank)).command now) {
        resources = some job.resources;
        group_id = group_id;
        rank = rank;
      }

  -- One round of the second loop: the record, and what the node is told.
  unfoldable pub start_member : List GroupMember → List RankJob → ℕ → String → AgentHub → AgentHub
  unfolding send_all input_messages
  start_member members per_rank rank id h =
      let task_id = member_id group_id rank in
      let group : TaskGroup = record { group_id = group_id; rank = rank; members = members } in
      send_all id
        (run_task (run_message digest task_id (some group) (job_of job (mine per_rank rank)))
          ∷ input_messages task_id job.inputs)
        (record h { tasks = insert task_id (member_task per_rank rank id) h.tasks })

  -- The second loop, from a rank on.
  unfoldable pub start_members :
      List GroupMember → List RankJob → ℕ → List String → AgentHub → AgentHub
  unfolding start_member
  start_members members per_rank rank [] h = h
  start_members members per_rank rank (id ∷ ids) h =
      start_members members per_rank (rank + 1) ids (start_member members per_rank rank id h)

  -- What the second loop leaves if the first message cannot be built: the task of the first rank.
  abbrev pub only_first : List RankJob → List String → AgentHub → AgentHub
  only_first per_rank [] h = h
  only_first per_rank (id ∷ ids) h = record h {
    tasks = insert (member_id group_id 0) (member_task per_rank 0 id) h.tasks;
  }

abbrev pub given : ℕ → Option (List RankJob) → List RankJob
given size none = []
given size (some rs) = rs

abbrev pub is_described : ℕ → Option (List RankJob) → Bool
is_described size none = true
is_described size (some rs) = eqb (length rs) size

-- `submit_group`. The environment, the resources and the numbers of the message are the same for each
-- rank, so it is the first message that raises, or none.
unfoldable pub submit_group :
    (List ℕ → String)
    → Job
    → (size : ℕ) → (node_ids : List String) → Option (List RankJob)
    → (label fresh : String) → ℕ
    → AgentHub
    → AgentHub × Result AgentError GroupRecord
unfolding group_record members_from start_members is_message
submit_group digest job size node_ids per_rank label fresh now h =
    if ltb size 1
    then (h, err no_members)
    else if not (is_described size per_rank)
    then (h, err (wrong_description size (length (given size per_rank))))
    else elim (choose_for_group h size job.resources node_ids) [
      | err e ↦ (h, err e)
      | ok chosen ↦
          let group_id = join "group-" fresh in
          let g = group_record group_id label now chosen in
          let h' = record h { groups = insert group_id g h.groups } in
          let pr = given size per_rank in
          if is_message job
          then (
            touch (start_members digest job group_id now (members_from h 0 chosen) pr 0 chosen h'),
            ok g,
          )
          else (only_first digest job group_id now pr chosen h', err bad_message)
    ]

abbrev newer_group : GroupRecord → GroupRecord → Bool
newer_group a b = ltb b.submitted_at a.submitted_at

abbrev runs : Option TaskRecord → Bool
runs none = false
runs (some t) = t.state == "running"

-- The task of rank 0 is in the table, and running.
unfoldable pub head_runs : AgentHub → GroupRecord → Bool
head_runs h g = elim (lookup 0 g.tasks) [
  | none ↦ runs (lookup "" h.tasks)
  | some task_id ↦ runs (lookup task_id h.tasks)
]

abbrev pub first_of : List GroupRecord → Option GroupRecord
first_of [] = none
first_of (g ∷ gs) = some g

-- `group_for`
unfoldable pub group_for : String → AgentHub → Option GroupRecord
unfolding head_runs
group_for label h =
    first_of (
      filter (head_runs h) (sort_by newer_group (filter (λ g. g.label == label) (values h.groups))))
