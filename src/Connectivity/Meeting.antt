-- ===== src/Connectivity/Meeting.antt =====
-- The verdict against the relation "these two can meet", whatever the order of the nodes.
use looma.Base.Sort.{sort_by-Sorted, sort_by-perm, Sorted}
use mathlib.Core.Path.{subst}
use mathlib.Core.List.{Perm, Permᴰ}
use mathlib.Core.List.Permᴰ
use mathlib.Core.Logic.{∥∥₁_elim}
use mathlib.Core.Bool.{Bool-discrete}
use mathlib.Core.HLevel.{hedberg}
use looma.Base.{
  sym, if◌then◌else◌, Bool-cases, string_eq, nat_eq, All, is_nil, String, ◌≡◌, refl, ◌↔◌, ◌⊎◌, inl,
  inr, Bool, true, false, List, [], ◌∷◌, ◌++◌, arith,
}
use looma.Connectivity.{
  meshier, sort_by, prefer_meshy, none_at_all, relay, Verdict, direct, verdict, pairs_needing_relay,
  can_meet, stuck_with, same_machine, Node,
}

-- Two nodes are one machine, one of them takes incoming calls, or neither has a symmetric NAT.
abbrev pub Meets : Node → Node → Type 0
Meets a b =
    (same_machine a b ≡ true)
    ⊎ (a.reachable ≡ true)
    ⊎ (b.reachable ≡ true)
    ⊎ ((a.symmetric_nat ≡ false) × (b.symmetric_nat ≡ false))

-- Every two nodes of the list meet.
abbrev pub AllMeet : List Node → Type 0
AllMeet [] = Unit
AllMeet (a ∷ rest) = All (Meets a) rest × AllMeet rest

-- Meeting is mutual: the order of the two does not matter.
pub Meets-symm : (a b : Node) → Meets a b → Meets b a
Meets-symm a b h = ground (arith, h)

stuck_with-nil : (a : Node) (rest : List Node) → (stuck_with a rest ≡ []) ↔ All (Meets a) rest
unfolding stuck_with
stuck_with-nil a [] = (λ e. tt, λ h. refl)
stuck_with-nil a (b ∷ rest) = elim (Bool-cases (same_machine a b)) [
  | inl same ↦
      rw (same, stuck_with)
        ((λ e. (inl refl, (stuck_with-nil a rest).0 e)), (λ h. (stuck_with-nil a rest).1 h.1))
  | inr differ ↦ elim (Bool-cases (can_meet a b)) [
    | inl meet ↦
        rw (differ, meet, stuck_with)
          (
            (λ e. (ground (arith, meet), (stuck_with-nil a rest).0 e)),
            (λ h. (stuck_with-nil a rest).1 h.1),
          )
    | inr apart ↦
        rw (differ, apart, stuck_with)
          ((λ e. cc), (λ h. absurd (ground (arith, h.0, differ, apart))))
  ]
]

append_nil_parts {ℓ} : {A : Type ℓ} (xs ys : List A) → xs ++ ys ≡ [] → (xs ≡ []) × (ys ≡ [])
append_nil_parts [] ys e = (refl, e)
append_nil_parts (x ∷ xs) ys e = cc

pub pairs-nil : (nodes : List Node) → (pairs_needing_relay nodes ≡ []) ↔ AllMeet nodes
unfolding pairs_needing_relay
pairs-nil [] = (λ e. tt, λ h. refl)
pairs-nil (a ∷ rest) = (
  (λ e.
      let (here, later) = append_nil_parts (stuck_with a rest) (pairs_needing_relay rest) e in
      ((stuck_with-nil a rest).0 here, (pairs-nil rest).0 later)),
  (λ h. rw ((stuck_with-nil a rest).1 h.0, (pairs-nil rest).1 h.1)),
)

abbrev pub AnyOf : {A : Type 0} → (A → Type 0) → List A → Type 0
AnyOf P [] = ⊥
AnyOf P (x ∷ xs) = P x ⊎ AnyOf P xs

-- The names of two nodes of the list, in its order, that do not meet.
abbrev pub IsStuck : String × String → List Node → Type 0
IsStuck p [] = ⊥
IsStuck p (a ∷ rest) =
    AnyOf (λ b. (¬ (Meets a b)) × (p ≡ (a.node_id, b.node_id))) rest ⊎ IsStuck p rest

stuck_with_same :
    (a b : Node) (rest : List Node)
    → same_machine a b ≡ true
    → stuck_with a (b ∷ rest) ≡ stuck_with a rest
unfolding stuck_with
stuck_with_same a b rest same = ground (arith, same)

stuck_with_met :
    (a b : Node) (rest : List Node)
    → can_meet a b ≡ true
    → stuck_with a (b ∷ rest) ≡ stuck_with a rest
unfolding stuck_with
stuck_with_met a b rest meet = ground (arith, meet)

stuck_with_apart :
    (a b : Node) (rest : List Node)
    → same_machine a b ≡ false
    → can_meet a b ≡ false
    → stuck_with a (b ∷ rest) ≡ (a.node_id, b.node_id) ∷ stuck_with a rest
unfolding stuck_with
stuck_with_apart a b rest differ apart = ground (arith, differ, apart)

stuck_with-AnyOf :
    (p : String × String) (a : Node) (rest : List Node)
    → AnyOf (λ q. p ≡ q) (stuck_with a rest)
      ↔ AnyOf (λ b. (¬ (Meets a b)) × (p ≡ (a.node_id, b.node_id))) rest
unfolding stuck_with
stuck_with-AnyOf p a [] = (λ h. h, λ h. h)
stuck_with-AnyOf p a (b ∷ rest) =
    let (down, up) = stuck_with-AnyOf p a rest in
    elim (Bool-cases (same_machine a b)) [
      | inl same ↦ subst Agree (sym (stuck_with_same a b rest same)) (
        (λ h. inr (down h)),
        (λ h. elim h [ inl (apart, _) ↦ absurd (apart (inl same)) | inr later ↦ up later ]),
      )
      | inr differ ↦ elim (Bool-cases (can_meet a b)) [
        | inl meet ↦ subst Agree (sym (stuck_with_met a b rest meet)) (
          (λ h. inr (down h)),
          (λ h. elim h [
            | inl (apart, _) ↦ absurd (apart (ground (arith, meet)))
            | inr later ↦ up later
          ]),
        )
        | inr apart ↦
            let never : ¬ (Meets a b) = λ m. ground (arith, m, differ, apart) in
            subst Agree (sym (stuck_with_apart a b rest differ apart)) (
              (λ h. elim h [ inl e ↦ inl (never, e) | inr later ↦ inr (down later) ]),
              (λ h. elim h [ inl (_, e) ↦ inl e | inr later ↦ inr (up later) ]),
            )
      ]
    ]
  where
    Agree : List (String × String) → Type 0
    Agree qs =
        AnyOf (λ q. p ≡ q) qs
        ↔ AnyOf (λ c. (¬ (Meets a c)) × (p ≡ (a.node_id, c.node_id))) (b ∷ rest)

AnyOf-append :
    {A : Type 0} (P : A → Type 0) (xs ys : List A) → AnyOf P (xs ++ ys) ↔ (AnyOf P xs ⊎ AnyOf P ys)
AnyOf-append P [] ys = (λ h. inr h, λ h. elim h [ inl a ↦ absurd a | inr b ↦ b ])
AnyOf-append P (x ∷ xs) ys =
    let (down, up) = AnyOf-append P xs ys in
    (
      (λ h. elim h [
        | inl p ↦ inl (inl p)
        | inr later ↦ elim (down later) [ inl a ↦ inl (inr a) | inr b ↦ inr b ]
      ]),
      (λ h. elim h [
        | inl a ↦ elim a [ inl p ↦ inl p | inr q ↦ inr (up (inl q)) ]
        | inr b ↦ inr (up (inr b))
      ]),
    )

pairs-IsStuck :
    (p : String × String) (nodes : List Node)
    → AnyOf (λ q. p ≡ q) (pairs_needing_relay nodes) ↔ IsStuck p nodes
unfolding pairs_needing_relay
pairs-IsStuck p [] = (λ h. h, λ h. h)
pairs-IsStuck p (a ∷ rest) =
    let (split, join) = AnyOf-append (λ q. p ≡ q) (stuck_with a rest) (pairs_needing_relay rest) in
    let (here, back) = stuck_with-AnyOf p a rest in
    let (later, again) = pairs-IsStuck p rest in
    (
      (λ h. elim (split h) [ inl x ↦ inl (here x) | inr y ↦ inr (later y) ]),
      (λ h. elim h [ inl x ↦ join (inl (back x)) | inr y ↦ join (inr (again y)) ]),
    )

-- A group is connected directly exactly if every two of its nodes meet; it is refused exactly if
-- some do not and no relay is deployed. The pairs that are named are those of nodes that do not
-- meet, and no others.
pub verdict_iff :
    (nodes : List Node) (relay_available : Bool)
    → let v = verdict nodes relay_available in
      ((v.path ≡ direct) ↔ AllMeet nodes)
      × ((v.ok ≡ false) ↔ ((relay_available ≡ false) × (¬ (AllMeet nodes))))
      × ((p : String × String) → AnyOf (λ q. p ≡ q) v.relayed_pairs ↔ IsStuck p nodes)
unfolding verdict
verdict_iff nodes relay_available =
    let (direct_iff, refused_iff, named) = go (pairs_needing_relay nodes) (pairs-nil nodes) in
    (
      direct_iff,
      refused_iff,
      λ p.
          subst (λ qs. AnyOf (λ q. p ≡ q) qs ↔ IsStuck p nodes) (sym named) (pairs-IsStuck p nodes),
    )
  where
    go :
        (stuck : List (String × String))
        → (stuck ≡ []) ↔ AllMeet nodes
        → let v : Verdict =
            if is_nil stuck
            then record { ok = true; path = direct; relayed_pairs = [] }
            else if relay_available
            then record { ok = true; path = relay; relayed_pairs = stuck }
            else record { ok = false; path = none_at_all; relayed_pairs = stuck } in
          ((v.path ≡ direct) ↔ AllMeet nodes)
          × ((v.ok ≡ false) ↔ ((relay_available ≡ false) × (¬ (AllMeet nodes))))
          × (v.relayed_pairs ≡ stuck)
    go [] h = ((λ e. h.0 refl, λ m. refl), (λ e. cc, λ k. absurd (k.1 (h.0 refl))), refl)
    go (p ∷ ps) h = elim (Bool-cases relay_available) [
      | inl up ↦ rw up ((λ e. cc, λ m. absurd (ground (arith, h.1 m))), (λ e. cc, λ k. cc), refl)
      | inr down ↦ rw down (
        (λ e. cc, λ m. absurd (ground (arith, h.1 m))),
        (λ e. (refl, λ m. ground (arith, h.1 m)), λ k. refl),
        refl,
      )
    ]

meshier_asym : (a b : Node) → meshier a b ≡ true → meshier b a ≡ false
unfolding meshier
meshier_asym a b h = ground (arith, h)

All-permᴰ : (P : Node → Type 0) {xs ys : List Node} → Permᴰ xs ys → All P xs → All P ys
All-permᴰ P Permᴰ.nil h = tt
All-permᴰ P (Permᴰ.cons e p) h = (subst P e h.0, All-permᴰ P p h.1)
All-permᴰ P (Permᴰ.swap e f) h = (subst P f h.1.0, (subst P e h.0, h.1.1))
All-permᴰ P (Permᴰ.trans p q) h = All-permᴰ P q (All-permᴰ P p h)

AllMeet-permᴰ : {xs ys : List Node} → Permᴰ xs ys → AllMeet xs → AllMeet ys
AllMeet-permᴰ Permᴰ.nil h = tt
AllMeet-permᴰ (Permᴰ.cons {a} {b} {l₂} e p) h =
    (subst (λ x. All (Meets x) l₂) e (All-permᴰ (Meets a) p h.0), AllMeet-permᴰ p h.1)
AllMeet-permᴰ (Permᴰ.swap {a} {b} {a'} {b'} {l} e f) h =
    subst (λ x. AllMeet (a' ∷ x ∷ l)) e
      (subst (λ y. AllMeet (y ∷ a ∷ l)) f ((Meets-symm a b h.0.0, h.1.0), (h.0.1, h.1.1)))
AllMeet-permᴰ (Permᴰ.trans p q) h = AllMeet-permᴰ q (AllMeet-permᴰ p h)

ok_of :
    (xs ys : List Node) (r : Bool)
    → Permᴰ xs ys
    → (verdict ys r).ok ≡ false
    → (verdict xs r).ok ≡ false
ok_of xs ys r p e =
    let (down, apart) = (verdict_iff ys r).1.0 e in
    (verdict_iff xs r).1.1 (down, λ m. apart (AllMeet-permᴰ p m))

-- The answer does not depend on the order in which the nodes are listed.
pub verdict-perm :
    (xs ys : List Node) (relay_available : Bool)
    → Perm xs ys
    → (verdict xs relay_available).ok ≡ (verdict ys relay_available).ok
verdict-perm xs ys r perm =
    ∥∥₁_elim perm (hedberg Bool-discrete _ _)
      λ p. ground (arith, ok_of xs ys r p, ok_of ys xs r (Permᴰ.symm p))

-- Putting the nodes that meet more easily first loses no node and does not change whether the
-- group is accepted; no node is listed behind one that is less meshy.
pub prefer_meshy-verdict :
    (nodes : List Node) (relay_available : Bool)
    → Perm (prefer_meshy nodes) nodes
      × Sorted meshier (prefer_meshy nodes)
      × ((verdict (prefer_meshy nodes) relay_available).ok ≡ (verdict nodes relay_available).ok)
unfolding prefer_meshy
prefer_meshy-verdict nodes r = (
  sort_by-perm meshier nodes,
  sort_by-Sorted meshier meshier_asym nodes,
  verdict-perm (sort_by meshier nodes) nodes r (sort_by-perm meshier nodes),
)
