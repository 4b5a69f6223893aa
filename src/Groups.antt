-- ===== src/Groups.antt =====
-- Where the other members of a job are, agent/looma_agent/tasks/groups.py.
pub mod Joining
mod Tests
use looma.Base.Dict.{erase, values, lookup, keys, insert, Dict}
use looma.Base.{
  if◌then◌else◌, ◌==◌, string_eq, nat_eq, length, is_nil, ℕ, String, Bool, Option, none, some, List,
  [], ◌∷◌,
}

-- `relay_rtt_ms` is in microseconds.
pub record Member : Type 0 where
  pub rank : ℕ
  pub node_id : String
  pub peer_id : String
  pub addrs : List String
  pub reachable : Bool
  pub relay_rtt : ℕ

pub record Group : Type 0 where
  pub group_id : String
  pub rank : ℕ
  pub members : Dict ℕ Member

-- `Group.size`
pub size : Group → ℕ
size g = length g.members

pub record GroupTable : Type 0 where
  pub by_task : Dict String Group
  pub local_rank : Dict String (Dict ℕ String)

abbrev pub new_table : GroupTable
new_table = record { by_task = []; local_rank = [] }

-- `d.get(k, {})`
abbrev pub or_none_held : Option (Dict ℕ String) → Dict ℕ String
or_none_held none = []
or_none_held (some d) = d

abbrev pub held_in : String → Dict String (Dict ℕ String) → Dict ℕ String
held_in group_id ranks = or_none_held (lookup group_id ranks)

-- `join`
pub join : String → Group → GroupTable → GroupTable
join task_id group s = record {
  by_task = insert task_id group s.by_task;
  local_rank =
      insert group.group_id (insert group.rank task_id (held_in group.group_id s.local_rank))
        s.local_rank;
}

-- What `leave` makes of the ranks of one group.
abbrev pub without_rank : String → ℕ → Dict String (Dict ℕ String) → Dict String (Dict ℕ String)
without_rank group_id rank ranks =
    let held = erase rank (held_in group_id ranks) in
    if is_nil held then erase group_id ranks else insert group_id held ranks

-- `leave`
pub leave : String → GroupTable → GroupTable
leave task_id s = elim (lookup task_id s.by_task) [
  | none ↦ s
  | some group ↦ record {
    by_task = erase task_id s.by_task;
    local_rank = without_rank group.group_id group.rank s.local_rank;
  }
]

-- `of`
unfoldable pub of : String → GroupTable → Option Group
of task_id s = lookup task_id s.by_task

-- `local_task`
unfoldable pub local_task : String → ℕ → GroupTable → Option String
local_task group_id rank s = lookup rank (held_in group_id s.local_rank)

abbrev pub first_member : String → ℕ → List Group → Option Member
first_member group_id rank [] = none
first_member group_id rank (g ∷ gs) =
    if g.group_id == group_id then lookup rank g.members else first_member group_id rank gs

-- `GroupTable.member`
pub member : String → ℕ → GroupTable → Option Member
member group_id rank s = first_member group_id rank (values s.by_task)

-- `groups`
pub groups : GroupTable → List String
groups s = keys s.local_rank
