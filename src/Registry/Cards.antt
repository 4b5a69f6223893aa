-- ===== src/Registry/Cards.antt =====
-- No card is given out twice, whatever is called in whatever order.
use looma.Base.Distinct.{
  filter-Distinct, contains-filter, contains-append, Distinct, All-contains, contains-All,
}
use looma.Base.Dict.{lookup, insert, erase, Dict}
use looma.Base.{
  All-both, ltb, leb, Bool-cases, ◌==◌, contains, string_eq, nat_eq, All, All-map_pred, ℕ, zero,
  suc, ◌+◌, ◌<◌, String, ◌≡◌, refl, inl, inr, false, ◌&&◌, some, List, [], ◌∷◌, arith,
}
use looma.Registry.{is_free, taken, range, free_devices, TaskRegistry}

-- Every holder's cards are different, and no later holder has any of them.
abbrev pub Apart : Dict String (List ℕ) → Type 0
Apart [] = Unit
Apart ((_, v) ∷ d) = Distinct v × All (λ x. contains (taken d) x ≡ false) v × Apart d

pub absent_symm :
    (v w : List ℕ) → All (λ y. contains w y ≡ false) v → All (λ x. contains v x ≡ false) w
absent_symm v w h = contains-All _ w (λ x m. elim (Bool-cases (contains v x)) [
  | inl held ↦ let gone = All-contains _ v x h held in absurd (ground (arith, m, gone))
  | inr free ↦ free
])

taken-insert :
    (k : String) (v : List ℕ) (d : Dict String (List ℕ)) (x : ℕ)
    → contains (taken d) x ≡ false
    → contains v x ≡ false
    → contains (taken (insert k v d)) x ≡ false
unfolding taken insert
taken-insert k v [] x h n = ground (arith, n, contains-append v [] x)
taken-insert k v ((j, w) ∷ d) x h n = ground (
  arith,
  h,
  n,
  contains-append w (taken d) x,
  contains-append v (taken d) x,
  contains-append w (taken (insert k v d)) x,
  taken-insert k v d x,
)

taken-erase :
    (k : String) (d : Dict String (List ℕ)) (x : ℕ)
    → contains (taken d) x ≡ false
    → contains (taken (erase k d)) x ≡ false
unfolding taken erase
taken-erase k [] x h = refl
taken-erase k ((j, w) ∷ d) x h = ground (
  arith,
  h,
  contains-append w (taken d) x,
  contains-append w (taken (erase k d)) x,
  taken-erase k d x,
)

pub taken-lookup :
    (k : String) (v : List ℕ) (d : Dict String (List ℕ)) (x : ℕ)
    → contains (taken d) x ≡ false
    → lookup k d ≡ some v
    → contains v x ≡ false
unfolding taken lookup
taken-lookup k v [] x h e = cc
taken-lookup k v ((j, w) ∷ d) x h e =
    ground (arith, h, e, contains-append w (taken d) x, taken-lookup k v d x)

pub Apart-insert :
    (k : String) (v : List ℕ) (d : Dict String (List ℕ))
    → Distinct v
    → All (λ x. contains (taken d) x ≡ false) v
    → Apart d
    → Apart (insert k v d)
unfolding insert taken
Apart-insert k v [] dv h a = (dv, All-map_pred _ _ (λ x p. refl) v h, tt)
Apart-insert k v ((j, w) ∷ d) dv h (dw, hw, a) =
    let off_w : All (λ x. contains w x ≡ false) v =
      All-map_pred _ _ (λ x p. ground (arith, p, contains-append w (taken d) x)) v h in
    let off_d : All (λ x. contains (taken d) x ≡ false) v =
      All-map_pred _ _ (λ x p. ground (arith, p, contains-append w (taken d) x)) v h in
    let rest = Apart-insert k v d dv off_d a in
    let both = All-both _ _ w hw (absent_symm v w off_w) in
    elim (Bool-cases (k == j)) [
      | inl same ↦ rw (same, insert) (dv, off_d, a)
      | inr differ ↦
          rw (differ, insert)
            (dw, All-map_pred _ _ (λ x p. taken-insert k v d x p.0 p.1) w both, rest)
    ]

pub Apart-erase : (k : String) (d : Dict String (List ℕ)) → Apart d → Apart (erase k d)
unfolding erase
Apart-erase k [] a = tt
Apart-erase k ((j, w) ∷ d) (dw, hw, a) = elim (Bool-cases (k == j)) [
  | inl same ↦ rw (same, erase) a
  | inr differ ↦
      rw (differ, erase) (dw, All-map_pred _ _ (λ x p. taken-erase k d x p) w hw, Apart-erase k d a)
]

-- The free cards are different, below the total, and nobody's.
pub contains-range :
    (first n x : ℕ) → contains (range first n) x ≡ (leb first x && ltb x (first + n))
unfolding range nat_eq
contains-range first zero x = ground arith
contains-range first (suc n) x = ground (arith, contains-range (first + 1) n x)

range-Distinct : (first n : ℕ) → Distinct (range first n)
unfolding range
range-Distinct first zero = tt
range-Distinct first (suc n) =
    (ground (arith, contains-range (first + 1) n first), range-Distinct (first + 1) n)

pub free_devices-Distinct : (s : TaskRegistry) → Distinct (free_devices s)
unfolding free_devices
free_devices-Distinct s =
    filter-Distinct (is_free s.held) (range 0 s.total_gpus) (range-Distinct 0 s.total_gpus)

pub free_devices-All :
    (s : TaskRegistry)
    → All (λ d. (d < s.total_gpus) × (contains (taken s.held) d ≡ false)) (free_devices s)
unfolding free_devices
free_devices-All s = contains-All _ _ (λ d m. ground (
  arith,
  m,
  contains-filter (is_free s.held) (range 0 s.total_gpus) d,
  contains-range 0 s.total_gpus d,
))

pub lookup-Distinct :
    (k : String) (v : List ℕ) (d : Dict String (List ℕ))
    → Apart d
    → lookup k d ≡ some v
    → Distinct v
unfolding lookup
lookup-Distinct k v [] a e = cc
lookup-Distinct k v ((j, w) ∷ d) (dw, hw, a) e = elim (Bool-cases (k == j)) [
  | inl same ↦ let own : w ≡ v = ground (arith, e, same) in rw (← own) dw
  | inr differ ↦ lookup-Distinct k v d a (ground (arith, e, differ))
]
