-- ===== src/Preemption.antt =====
-- Which deployed groups give way to a lease, src/looma/orchestrator/preemption.py.
-- Times are whole ticks; `seen` is a set, used through membership and size alone.
pub mod Loop
pub mod Nodes
pub mod Complete
pub mod Groups
mod Tests
use looma.Base.{
  ltb, leb, if◌then◌else◌, is_some, ◌==◌, contains, string_eq, nat_eq, str_lt, length, take, is_nil,
  ℕ, zero, suc, ◌-◌, String, Bool, true, false, not, ◌&&◌, ◌||◌, Option, none, some, List, [], ◌∷◌,
  ◌++◌,
}
use looma.Base.Dict.{Dict, values}
use looma.Base.Distinct.{distinct_from}
use looma.Base.Filter.{filter, count_if}
use looma.Base.Sort.{sort_by}
use looma.Base.Int.{ℤ, pos, negsuc}

-- `Standing`: a deployed group as the planner sees it.
pub record Standing : Type 0 where
  pub group_id : String
  pub label : String
  pub nodes : List String
  pub submitted_at : ℕ
  pub protected : Bool

-- The text of a refusal, with the numbers that it names.
pub data Refusal : Type 0 where
  zero_nodes : Refusal
  not_enough : (need free extra held : ℕ) → Refusal

-- `Plan`; the empty text of `refusal` is `none`.
pub record Plan : Type 0 where
  pub nodes : List String
  pub evict : List Standing
  pub refusal : Option Refusal

-- `Plan.possible`
pub possible : Plan → Bool
possible p = not (is_some p.refusal)

-- `len(set(s.nodes) - seen)`
fresh_count : List String → Standing → ℕ
fresh_count seen s = length (distinct_from seen s.nodes)

-- The sort key `(-fresh, -submitted_at, group_id)`.
pub goes_first : List String → Standing → Standing → Bool
unfolding fresh_count
goes_first seen a b =
    if ltb (fresh_count seen b) (fresh_count seen a)
    then true
    else if ltb (fresh_count seen a) (fresh_count seen b)
    then false
    else if ltb b.submitted_at a.submitted_at
    then true
    else if ltb a.submitted_at b.submitted_at
    then false
    else str_lt a.group_id b.group_id

abbrev pub is_movable : Standing → Bool
is_movable s = not s.protected && not (is_nil s.nodes)

abbrev pub fresh_of : List String → Standing → List String
fresh_of seen s = filter (λ node. not (contains seen node)) s.nodes

-- The loop over the sorted groups: the nodes taken and the groups put out, in order.
pub evict_loop :
    ℕ → List Standing → List String → List String → List Standing → List String × List Standing
evict_loop need [] taken seen evict = (taken, evict)
evict_loop need (group ∷ groups) taken seen evict =
    let skip = evict_loop need groups taken seen evict in
    let take_it =
      evict_loop need groups (taken ++ fresh_of seen group) (seen ++ fresh_of seen group)
        (evict ++ (group ∷ [])) in
    if leb need (length taken)
    then (taken, evict)
    else if is_nil (fresh_of seen group)
    then skip
    else take_it

pub ordered : List String → List Standing → List Standing
unfolding goes_first
ordered free standing = sort_by (goes_first free) (filter is_movable standing)

-- The tail of `plan`, after the loop.
abbrev pub conclude : ℕ → List String → List Standing → List String × List Standing → Plan
conclude need free standing (taken, evict) =
    if ltb (length taken) need
    then record {
      nodes = [];
      evict = [];
      refusal = some (
          not_enough need (length free) (length taken - length free)
            (count_if (λ s. s.protected) standing));
    }
    else record { nodes = take need taken; evict = evict; refusal = none }

-- `plan` for a positive need, over the free nodes without repetitions.
pub plan_from : ℕ → List String → List Standing → Plan
unfolding evict_loop ordered
plan_from need free standing =
    if leb need (length free)
    then record { nodes = take need free; evict = []; refusal = none }
    else conclude need free standing (evict_loop need (ordered free standing) free free [])

-- `plan`
pub plan : ℤ → List String → List Standing → Plan
unfolding plan_from
plan (negsuc n) free standing = record { nodes = []; evict = []; refusal = some zero_nodes }
plan (pos zero) free standing = record { nodes = []; evict = []; refusal = some zero_nodes }
plan (pos (suc n)) free standing = plan_from (suc n) (distinct_from [] free) standing

-- A group's record, as far as `standing_from` reads it: `nodes` is by rank.
pub record GroupRecord : Type 0 where
  pub label : String
  pub nodes : Dict ℕ String
  pub submitted_at : ℕ

abbrev pub inference : String
inference = "looma-inference"

abbrev pub standing_of : List String → String → GroupRecord → Standing
standing_of protected group_id r = record {
  group_id = group_id;
  label = r.label;
  nodes = sort_by str_lt (distinct_from [] (values r.nodes));
  submitted_at = r.submitted_at;
  protected = contains protected group_id || contains protected r.label;
}

-- `standing_from`; `resource_of` asks the accounting of the platform.
pub standing_from : (String → String) → List String → Dict String GroupRecord → List Standing
standing_from resource_of protected [] = []
standing_from resource_of protected ((group_id, r) ∷ groups) =
    let rest = standing_from resource_of protected groups in
    if resource_of group_id == inference then standing_of protected group_id r ∷ rest else rest
