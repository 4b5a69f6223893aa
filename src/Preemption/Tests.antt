-- ===== src/Preemption/Tests.antt =====
-- Runs of the planner, and its theorems at concrete groups.
use looma.Base.{
  if◌then◌else◌, ◌==◌, contains, string_eq, nat_eq, str_lt, All, length, ℕ, ◌<◌, String, ◌≡◌, refl,
  ◌⊎◌, true, false, some, List, [], ◌∷◌, map, arith,
}
use looma.Base.Dict.{Dict}
use looma.Base.Int.{ℤ, pos, negsuc}
use looma.Base.Sort.{sort_by}
use looma.Base.Filter.{filter, count_if}
use looma.Base.Distinct.{distinct_from}
use looma.Preemption.{
  Standing, Plan, zero_nodes, not_enough, GroupRecord, possible, plan, standing_from, inference,
}
use looma.Preemption.Nodes.{plan-all_or_nothing}
use looma.Preemption.Complete.{plan-refusal_is_honest}
use looma.Preemption.Groups.{plan-spares_rented}

abbrev record_of : String → Dict ℕ String → ℕ → GroupRecord
record_of label nodes submitted_at = record {
  label = label;
  nodes = nodes;
  submitted_at = submitted_at;
}

abbrev groups : Dict String GroupRecord
groups =
    ("g1", record_of "small" ((0, "n1") ∷ []) 5)
    ∷ ("g2", record_of "wide" ((0, "n4") ∷ (1, "n3") ∷ (2, "n3") ∷ []) 3)
    ∷ ("g3", record_of "shop" ((0, "n5") ∷ []) 9)
    ∷ ("rent", record_of "ray" ((0, "n6") ∷ []) 1)
    ∷ []

abbrev resource_of : String → String
resource_of group_id = if group_id == "rent" then "looma-compute" else inference

standing : List Standing
unfolding standing_from sort_by string_eq str_lt distinct_from
standing = standing_from resource_of ("shop" ∷ []) groups

run : ℤ → List String → Plan
unfolding plan standing filter count_if
run need free = plan need free standing

-- The group with more new nodes goes first, and one is enough.
evicts_widest : map (λ g. g.group_id) (run (pos 3) ("n0" ∷ "n0" ∷ [])).evict ≡ "g2" ∷ []
unfolding run
evicts_widest = refl

nodes_taken : (run (pos 4) ("n0" ∷ [])).nodes ≡ "n0" ∷ "n3" ∷ "n4" ∷ "n1" ∷ []
unfolding run
nodes_taken = refl

refuses :
    run (pos 5) ("n0" ∷ []) ≡ record { nodes = []; evict = []; refusal = some (not_enough 5 1 3 1) }
unfolding run
refuses = refl

refuses_nothing : (run (negsuc 0) ("n0" ∷ [])).refusal ≡ some zero_nodes
unfolding run
refuses_nothing = refl

plan-all_or_nothing_example :
    let p = plan (pos 4) ("n0" ∷ []) standing in
    ((possible p ≡ true) × (pos 4 ≡ pos (length p.nodes)))
    ⊎ ((possible p ≡ false) × (p.nodes ≡ []) × (p.evict ≡ []))
plan-all_or_nothing_example = plan-all_or_nothing (pos 4) ("n0" ∷ []) standing

plan-refusal_is_honest_example : length {A = String} ("n0" ∷ "n1" ∷ "n3" ∷ []) < 5
unfolding run possible
plan-refusal_is_honest_example =
    plan-refusal_is_honest 5 ("n0" ∷ []) standing ("n0" ∷ "n1" ∷ "n3" ∷ []) (omega arith) refl
      (refl, (refl, (refl, tt))) (refl, (refl, (refl, tt)))

plan-spares_rented_example :
    All
      (λ g.
        (resource_of g.group_id ≡ inference)
        × (contains ("shop" ∷ []) g.group_id ≡ false)
        × (contains ("shop" ∷ []) g.label ≡ false))
      (plan (pos 4) ("n0" ∷ []) (standing_from resource_of ("shop" ∷ []) groups)).evict
plan-spares_rented_example = plan-spares_rented resource_of ("shop" ∷ []) (pos 4) ("n0" ∷ []) groups
