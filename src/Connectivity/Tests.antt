-- ===== src/Connectivity/Tests.antt =====
-- Verdicts on small groups, and the theorems there.
use looma.Base.Sort.{sort_by}
use looma.Base.{string_eq, nat_eq, ℕ, String, ◌≡◌, refl, ◌↔◌, Bool, true, false, List, [], ◌∷◌, map}
use looma.Connectivity.{relay, none_at_all, direct, verdict, prefer_meshy, Node}
use looma.Connectivity.Meeting.{AnyOf, IsStuck, verdict_iff, AllMeet}

abbrev node : String → Bool → Bool → ℕ → Node
node id reachable symmetric vram = record {
  node_id = id;
  reachable = reachable;
  symmetric_nat = symmetric;
  direct_share = 0;
  vram_free_bytes = vram;
}

abbrev home : List Node
home = node "a" false true 24 ∷ node "b" false false 80 ∷ node "a" false true 24 ∷ []

abbrev mixed : List Node
mixed = node "a" false true 24 ∷ node "b" true false 80 ∷ []

stuck :
    verdict home false
    ≡ record { ok = false; path = none_at_all; relayed_pairs = ("a", "b") ∷ ("b", "a") ∷ [] }
unfolding verdict string_eq
stuck = refl

relayed : (verdict home true).path ≡ relay
unfolding verdict string_eq
relayed = refl

reachable_first : map (λ n. n.node_id) (prefer_meshy mixed) ≡ "b" ∷ "a" ∷ []
unfolding prefer_meshy sort_by
reachable_first = refl

verdict_iff_example :
    let v = verdict mixed false in
    ((v.path ≡ direct) ↔ AllMeet mixed)
    × ((v.ok ≡ false) ↔ ((◌≡◌ {A = Bool} false false) × (¬ (AllMeet mixed))))
    × ((p : String × String) → AnyOf (λ q. p ≡ q) v.relayed_pairs ↔ IsStuck p mixed)
verdict_iff_example = verdict_iff mixed false
