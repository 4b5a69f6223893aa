-- ===== src/Preemption/Nodes.antt =====
-- The plan as the lease sees it: how many nodes, from whom, at whose cost.
use looma.Base.{
  All-both, ltb, leb, Bool-cases, contains, string_eq, nat_eq, All, length, take, is_nil,
  length-take, All-take, All-map_pred, ℕ, zero, suc, ◌+◌, ◌≤◌, ◌<◌, String, ◌≡◌, refl, ◌⊎◌, inl,
  inr, true, false, ◌||◌, none, some, List, [], arith,
}
use looma.Base.Int.{pos_part, ℤ, pos, negsuc}
use looma.Base.Sort.{sort_by-All}
use looma.Base.Filter.{filter, filter-All, filter-All_self}
use looma.Base.Distinct.{
  Distinct, distinct_from, distinct_from-Distinct, contains-distinct_from, Distinct-take, All-self,
}
use looma.Preemption.{
  Standing, Refusal, zero_nodes, Plan, possible, goes_first, is_movable, ordered, evict_loop,
  plan_from, plan,
}
use looma.Preemption.Loop.{
  covers, evict_loop-Distinct, evict_loop-All, evict_loop-sources, evict_loop-counts,
}

-- The groups that the loop walks are movable ones of the list.
pub ordered-All :
    (P : Standing → Type 0) (free : List String) (standing : List Standing)
    → All P standing
    → All (λ g. P g × (is_movable g ≡ true)) (ordered free standing)
unfolding ordered
ordered-All P free standing h = sort_by-All (goes_first free) _ (filter is_movable standing) (
    All-both P _ (filter is_movable standing) (filter-All P is_movable standing h)
      (filter-All_self is_movable standing))

-- A plan is a refusal, or the front of the free nodes, or the front of what the loop took.
pub plan_ind :
    (P : Plan → Type 0) (need : ℤ) (free : List String) (standing : List Standing)
    → let n = pos_part need in
      let nodes = distinct_from [] free in
      let found = evict_loop n (ordered nodes standing) nodes nodes [] in
      ((r : Refusal) → P (record { nodes = []; evict = []; refusal = some r }))
      → P (record { nodes = take n nodes; evict = []; refusal = none })
      → P (record { nodes = take n found.0; evict = found.1; refusal = none })
      → P (plan need free standing)
unfolding plan
plan_ind P (negsuc n) free standing refused idle busy = refused zero_nodes
plan_ind P (pos zero) free standing refused idle busy = refused zero_nodes
plan_ind P (pos (suc n)) free standing refused idle busy =
    let nodes = distinct_from [] free in
    let found = evict_loop (suc n) (ordered nodes standing) nodes nodes [] in
    elim (Bool-cases (leb (suc n) (length nodes))) [
      | inl enough ↦ rw (enough, plan_from) idle
      | inr short ↦ elim (Bool-cases (ltb (length found.0) (suc n))) [
        | inl lacking ↦ rw (short, lacking, plan_from) (refused _)
        | inr met ↦ rw (short, met, plan_from) busy
      ]
    ]

-- A plan is all or nothing: a possible one has exactly as many nodes as were asked, and a refused
-- one takes no node and puts nobody out.
pub plan-all_or_nothing :
    (need : ℤ) (free : List String) (standing : List Standing)
    → let p = plan need free standing in
      ((possible p ≡ true) × (need ≡ pos (length p.nodes)))
      ⊎ ((possible p ≡ false) × (p.nodes ≡ []) × (p.evict ≡ []))
unfolding plan possible
plan-all_or_nothing (negsuc n) free standing = inr (refl, refl, refl)
plan-all_or_nothing (pos zero) free standing = inr (refl, refl, refl)
plan-all_or_nothing (pos (suc n)) free standing =
    let nodes = distinct_from [] free in
    let taken = (evict_loop (suc n) (ordered nodes standing) nodes nodes []).0 in
    ground (arith, length-take (suc n) nodes, length-take (suc n) taken)

-- Who is put out stands in the list, is not protected, and holds a node. `P` is any property
-- that the whole list has.
pub plan-spares_protected :
    (P : Standing → Type 0) (need : ℤ) (free : List String) (standing : List Standing)
    → All P standing
    → All
        (λ g. P g × (g.protected ≡ false) × (is_nil g.nodes ≡ false))
        (plan need free standing).evict
plan-spares_protected P need free standing h =
    let nodes = distinct_from [] free in
    let Spared : Standing → Type 0 = λ g. P g × (g.protected ≡ false) × (is_nil g.nodes ≡ false) in
    plan_ind (λ p. All Spared p.evict) need free standing (λ r. tt) tt
      (evict_loop-All (pos_part need) Spared (ordered nodes standing) nodes []
        (All-map_pred _ Spared (λ g q. (q.0, ground (arith, q.1), ground (arith, q.1)))
          (ordered nodes standing) (ordered-All P nodes standing h))
        tt)

-- The nodes of a plan are all different, if no group lists a node twice.
pub plan-Distinct :
    (need : ℤ) (free : List String) (standing : List Standing)
    → All (λ g. Distinct g.nodes) standing
    → Distinct (plan need free standing).nodes
plan-Distinct need free standing h =
    let nodes = distinct_from [] free in
    let different = distinct_from-Distinct [] free in
    let n = pos_part need in
    plan_ind (λ p. Distinct p.nodes) need free standing (λ r. tt) (Distinct-take n nodes different)
      (Distinct-take n _ (
        evict_loop-Distinct n (ordered nodes standing) nodes [] different (
          All-map_pred _ _ (λ g q. q.0) (ordered nodes standing) (ordered-All _ nodes standing h))))

-- Every node of a plan was free, or is held by a group that the plan puts out.
pub plan-sources :
    (need : ℤ) (free : List String) (standing : List Standing)
    → let p = plan need free standing in
      All (λ n. (contains free n || covers p.evict n) ≡ true) p.nodes
plan-sources need free standing =
    let nodes = distinct_from [] free in
    let n = pos_part need in
    let known : All (λ a. contains free a ≡ true) nodes =
      All-map_pred _ _ (λ a m. ground (arith, m, contains-distinct_from [] free a)) nodes
        (All-self nodes) in
    plan_ind (λ p. All (λ a. (contains free a || covers p.evict a) ≡ true) p.nodes) need free
      standing (λ r. tt)
      (All-take _ n nodes (All-map_pred _ _ (λ a m. ground (arith, m)) nodes known))
      (All-take _ n _ (
        evict_loop-sources n free (ordered nodes standing) nodes []
          (All-map_pred _ _ (λ a m. ground (arith, m)) nodes known)))

-- Enough free nodes: the first of them are given and nobody is put out. Otherwise no group is put
-- out in vain: there are never more of them than nodes beyond the free ones.
pub plan-evicts_little :
    (need : ℕ) (free : List String) (standing : List Standing)
    → 0 < need
    → let p = plan (pos need) free standing in
      let nodes = distinct_from [] free in
      (need ≤ length nodes → p ≡ record { nodes = take need nodes; evict = []; refusal = none })
      × (length nodes < need
          → length p.evict + length nodes
            ≤ length (evict_loop need (ordered nodes standing) nodes nodes []).0)
unfolding plan
plan-evicts_little zero free standing positive = absurd (omega arith)
plan-evicts_little (suc n) free standing positive =
    let nodes = distinct_from [] free in
    (
      λ enough. ground (arith, enough),
      λ short. ground (arith, short, evict_loop-counts (suc n) (ordered nodes standing) nodes []),
    )
