-- ===== src/Preemption/Complete.antt =====
-- A refusal is honest: no choice of nodes would have met the need.
use looma.Base.{
  Bool-cases, contains, string_eq, nat_eq, All, length, All-map_pred, ℕ, zero, suc, ◌<◌, String,
  ◌≡◌, refl, inl, inr, Bool, true, false, ◌&&◌, ◌||◌, List, [], ◌∷◌, arith,
}
use looma.Base.Int.{pos}
use looma.Base.Sort.{All-sort_by}
use looma.Base.Filter.{All-filter, filter}
use looma.Base.Distinct.{
  Distinct, distinct_from, contains-distinct_from, All-contains, Distinct-length_le,
}
use looma.Preemption.{Standing, possible, goes_first, is_movable, ordered, evict_loop, plan}
use looma.Preemption.Loop.{evict_loop-exhausts, evict_loop-keeps}

-- The nodes of the movable groups.
abbrev pub movable_holds : List Standing → String → Bool
movable_holds [] node = false
movable_holds (g ∷ gs) node = (is_movable g && contains g.nodes node) || movable_holds gs node

holds-taken :
    (r : List String) (standing : List Standing) (n : String)
    → All (λ g. is_movable g ≡ true → All (λ m. contains r m ≡ true) g.nodes) standing
    → movable_holds standing n ≡ true
    → contains r n ≡ true
holds-taken r [] n h m = cc
holds-taken r (g ∷ standing) n h m = elim (Bool-cases (is_movable g && contains g.nodes n)) [
  | inl here ↦ All-contains _ g.nodes n (h.0 (ground (arith, here))) (ground (arith, here))
  | inr later ↦ holds-taken r standing n h.1 (ground (arith, later, m))
]

-- If a plan for a positive need is refused, then every list of different nodes, each free or held
-- by a group that may be put out, is shorter than the need.
pub plan-refusal_is_honest :
    (need : ℕ) (free : List String) (standing : List Standing) (nodes : List String)
    → 0 < need
    → possible (plan (pos need) free standing) ≡ false
    → Distinct nodes
    → All (λ n. (contains free n || movable_holds standing n) ≡ true) nodes
    → length nodes < need
unfolding plan possible
plan-refusal_is_honest zero free standing nodes positive refused different known =
    absurd (omega arith)
plan-refusal_is_honest (suc k) free standing nodes positive refused different known =
    let start = distinct_from [] free in
    let r = (evict_loop (suc k) (ordered start standing) start start []).0 in
    let short : length r < suc k = ground (arith, refused) in
    let exhausted =
      All-filter (λ g. All (λ n. contains r n ≡ true) g.nodes) is_movable standing
        (All-sort_by (goes_first start) _ (filter is_movable standing)
          (evict_loop-exhausts (suc k) r (ordered start standing) start [] refl short)) in
    let covered : All (λ n. contains r n ≡ true) nodes =
      All-map_pred _ _
        (λ n known. elim (Bool-cases (contains free n)) [
          | inl was_free ↦
              evict_loop-keeps (suc k) n (ordered start standing) start []
                (ground (arith, was_free, contains-distinct_from [] free n))
          | inr held ↦ holds-taken r standing n exhausted (ground (arith, held, known))
        ])
        nodes known in
    omega (arith, short, Distinct-length_le nodes r different covered)
