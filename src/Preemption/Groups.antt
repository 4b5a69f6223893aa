-- ===== src/Preemption/Groups.antt =====
-- The groups that the plan is given: `standing_from` over the records of the deployed groups.
use looma.Base.{
  Bool-cases, ◌==◌, contains, string_eq, nat_eq, str_lt, All, All-map_pred, String, ◌≡◌, refl, ◌∙◌,
  inl, inr, Bool, false, ◌||◌, List, [], ◌∷◌, arith,
}
use looma.Base.Dict.{Dict, values}
use looma.Base.Int.{ℤ}
use looma.Base.Sort.{sort_by, insert_sorted}
use looma.Base.Distinct.{Distinct, distinct_from-Distinct}
use looma.Preemption.{Standing, GroupRecord, plan, standing_from, inference}
use looma.Preemption.Nodes.{plan-Distinct, plan-spares_protected}

contains-insert_sorted :
    (before : String → String → Bool) (x : String) (ys : List String) (a : String)
    → contains (insert_sorted before x ys) a ≡ (a == x || contains ys a)
unfolding insert_sorted
contains-insert_sorted before x [] a = refl
contains-insert_sorted before x (y ∷ ys) a = ground (arith, contains-insert_sorted before x ys a)

insert_sorted-Distinct :
    (before : String → String → Bool) (x : String) (ys : List String)
    → contains ys x ≡ false
    → Distinct ys
    → Distinct (insert_sorted before x ys)
unfolding insert_sorted
insert_sorted-Distinct before x [] new d = (refl, tt)
insert_sorted-Distinct before x (y ∷ ys) new d = ground (
  arith,
  new,
  d.0,
  contains-insert_sorted before x ys y,
  insert_sorted-Distinct before x ys (ground (arith, new)) d.1,
)

contains-sort_by :
    (before : String → String → Bool) (xs : List String) (a : String)
    → contains (sort_by before xs) a ≡ contains xs a
unfolding sort_by
contains-sort_by before [] a = refl
contains-sort_by before (x ∷ xs) a =
    ground
      (arith, contains-insert_sorted before x (sort_by before xs) a, contains-sort_by before xs a)

sort_by-Distinct :
    (before : String → String → Bool) (xs : List String)
    → Distinct xs
    → Distinct (sort_by before xs)
unfolding sort_by
sort_by-Distinct before [] d = tt
sort_by-Distinct before (x ∷ xs) d =
    insert_sorted-Distinct before x (sort_by before xs) (contains-sort_by before xs x ∙ d.0)
      (sort_by-Distinct before xs d.1)

module _ (resource_of : String → String) (protected : List String) where
  -- What holds of every group that `standing_from` makes.
  abbrev Made : Standing → Type 0
  Made g =
      (resource_of g.group_id ≡ inference)
      × (g.protected ≡ (contains protected g.group_id || contains protected g.label))
      × Distinct g.nodes

  pub standing_from-Made :
      (groups : Dict String GroupRecord) → All Made (standing_from resource_of protected groups)
  unfolding standing_from
  standing_from-Made [] = tt
  standing_from-Made ((id, r) ∷ groups) = elim (Bool-cases (resource_of id == inference)) [
    | inl kept ↦
        rw (kept, standing_from)
          (
            (
              ground (arith, kept),
              refl,
              sort_by-Distinct str_lt _ (distinct_from-Distinct [] (values r.nodes)),
            ),
            standing_from-Made groups,
          )
    | inr skipped ↦ rw (skipped, standing_from) (standing_from-Made groups)
  ]

  -- A rented cluster is never put out for another lease, and neither is a group whose id or whose
  -- model's name the administrator protects.
  pub plan-spares_rented :
      (need : ℤ) (free : List String) (groups : Dict String GroupRecord)
      → All
          (λ g.
            (resource_of g.group_id ≡ inference)
            × (contains protected g.group_id ≡ false)
            × (contains protected g.label ≡ false))
          (plan need free (standing_from resource_of protected groups)).evict
  plan-spares_rented need free groups =
      All-map_pred _ _ (λ g h. (h.0.0, ground (arith, h.0.1, h.1), ground (arith, h.0.1, h.1))) _
        (plan-spares_protected Made need free (standing_from resource_of protected groups)
          (standing_from-Made groups))

  -- The nodes of a plan over the deployed groups are all different, whatever their records say.
  pub plan-nodes_differ :
      (need : ℤ) (free : List String) (groups : Dict String GroupRecord)
      → Distinct (plan need free (standing_from resource_of protected groups)).nodes
  plan-nodes_differ need free groups =
      plan-Distinct need free (standing_from resource_of protected groups)
        (All-map_pred _ _ (λ g h. h.2) _ (standing_from-Made groups))
