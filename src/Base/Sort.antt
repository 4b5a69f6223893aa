-- ===== src/Base/Sort.antt =====
-- Python's `sorted`: stable, by a strict order on the keys.
use mathlib.Core.Path.{subst}
use looma.Base.{
  ◌≢◌, refl, All-map_pred, ◌≡◌, true, false, Bool, List, [], ◌∷◌, arith, if◌then◌else◌, All,
  Bool-cases, inl, inr,
}
use mathlib.Core.List.{Perm}
use mathlib.Core.List.Perm

module _ {A : Type 0} (before : A → A → Bool) where
  -- Behind the items that are not strictly after it.
  unfoldable pub insert_sorted : A → List A → List A
  insert_sorted x [] = x ∷ []
  insert_sorted x (y ∷ ys) = if before y x then y ∷ insert_sorted x ys else x ∷ y ∷ ys

  unfoldable pub sort_by : List A → List A
  unfolding insert_sorted
  sort_by [] = []
  sort_by (x ∷ xs) = insert_sorted x (sort_by xs)

  insert_sorted-perm : (x : A) (ys : List A) → Perm (insert_sorted x ys) (x ∷ ys)
  unfolding insert_sorted
  insert_sorted-perm x [] = Perm.refl _
  insert_sorted-perm x (y ∷ ys) = elim (Bool-cases (before y x)) [
    | inl first ↦ rw first (Perm.trans (Perm.cons y (insert_sorted-perm x ys)) (Perm.swap x y ys))
    | inr last ↦ rw last (Perm.refl _)
  ]

  pub sort_by-perm : (xs : List A) → Perm (sort_by xs) xs
  unfolding sort_by
  sort_by-perm [] = Perm.refl _
  sort_by-perm (x ∷ xs) =
      Perm.trans (insert_sorted-perm x (sort_by xs)) (Perm.cons x (sort_by-perm xs))

  pub insert_sorted-All :
      (P : A → Type 0) (x : A) (ys : List A) → P x → All P ys → All P (insert_sorted x ys)
  unfolding insert_sorted
  insert_sorted-All P x [] p h = (p, tt)
  insert_sorted-All P x (y ∷ ys) p h = ground (arith, insert_sorted-All P x ys p h.1)

  pub sort_by-All : (P : A → Type 0) (xs : List A) → All P xs → All P (sort_by xs)
  unfolding sort_by
  sort_by-All P [] h = tt
  sort_by-All P (x ∷ xs) h = insert_sorted-All P x (sort_by xs) h.0 (sort_by-All P xs h.1)

  All-insert_sorted :
      (P : A → Type 0) (x : A) (ys : List A) → All P (insert_sorted x ys) → P x × All P ys
  unfolding insert_sorted
  All-insert_sorted P x [] h = h
  All-insert_sorted P x (y ∷ ys) h = ground (arith, All-insert_sorted P x ys)

  pub All-sort_by : (P : A → Type 0) (xs : List A) → All P (sort_by xs) → All P xs
  unfolding sort_by
  All-sort_by P [] h = tt
  All-sort_by P (x ∷ xs) h =
      let (p, rest) = All-insert_sorted P x (sort_by xs) h in (p, All-sort_by P xs rest)

  abbrev Follows : A → List A → Type 0
  Follows x [] = Unit
  Follows x (y ∷ ys) = before y x ≡ false

  -- No item is strictly before its predecessor.
  abbrev pub Sorted : List A → Type 0
  Sorted [] = Unit
  Sorted (x ∷ xs) = Follows x xs × Sorted xs

  module _ (asym : (x y : A) → before x y ≡ true → before y x ≡ false) where
    Follows-insert_sorted :
        (y x : A) (ys : List A) → before y x ≡ true → Follows y ys → Follows y (insert_sorted x ys)
    unfolding insert_sorted
    Follows-insert_sorted y x [] b f = asym y x b
    Follows-insert_sorted y x (z ∷ zs) b f = elim (Bool-cases (before z x)) [
      | inl first ↦ rw (first, insert_sorted) f
      | inr last ↦ rw (last, insert_sorted) (asym y x b)
    ]

    insert_sorted-Sorted : (x : A) (ys : List A) → Sorted ys → Sorted (insert_sorted x ys)
    unfolding insert_sorted
    insert_sorted-Sorted x [] s = (tt, tt)
    insert_sorted-Sorted x (y ∷ ys) s = elim (Bool-cases (before y x)) [
      | inl first ↦
          rw (first, insert_sorted)
            (Follows-insert_sorted y x ys first s.0, insert_sorted-Sorted x ys s.1)
      | inr last ↦ rw (last, insert_sorted) (last, s)
    ]

    pub sort_by-Sorted : (xs : List A) → Sorted (sort_by xs)
    unfolding sort_by
    sort_by-Sorted [] = tt
    sort_by-Sorted (x ∷ xs) = insert_sorted-Sorted x (sort_by xs) (sort_by-Sorted xs)

    -- With a total preorder behind it, the first item of the result is one that nothing precedes.
    module _
        (neg_trans : (x y z : A)
          → before y x ≡ false
          → before z y ≡ false
          → before z x ≡ false) where
      abbrev Heads : List A → List A → Type 0
      Heads [] xs = Unit
      Heads (h ∷ hs) xs = All (λ x. before x h ≡ false) xs

      Heads-insert_sorted :
          (x : A) (ys xs : List A)
          → (ys ≡ [] → xs ≡ [])
          → Heads ys xs
          → Heads (insert_sorted x ys) (x ∷ xs)
      unfolding insert_sorted
      Heads-insert_sorted x [] xs e h = rw (e refl) (irrefl, tt)
        where
          irrefl : before x x ≡ false
          irrefl = elim (Bool-cases (before x x)) [ inl b ↦ asym x x b | inr b ↦ b ]
      Heads-insert_sorted x (y ∷ ys) xs e h = elim (Bool-cases (before y x)) [
        | inl first ↦ rw (first, insert_sorted) (asym y x first, h)
        | inr last ↦
            rw (last, insert_sorted)
              (irrefl, All-map_pred _ _ (λ z later. neg_trans x y z last later) xs h)
      ]
        where
          irrefl : before x x ≡ false
          irrefl = elim (Bool-cases (before x x)) [ inl b ↦ asym x x b | inr b ↦ b ]

      insert_sorted-ne_nil : (x : A) (ys : List A) → insert_sorted x ys ≢ []
      unfolding insert_sorted
      insert_sorted-ne_nil x [] e = cc
      insert_sorted-ne_nil x (y ∷ ys) e = ground (arith, e)

      pub sort_by-nil : (xs : List A) → sort_by xs ≡ [] → xs ≡ []
      unfolding sort_by
      sort_by-nil [] e = refl
      sort_by-nil (x ∷ xs) e = absurd (insert_sorted-ne_nil x (sort_by xs) e)

      sort_by-Heads : (xs : List A) → Heads (sort_by xs) xs
      unfolding sort_by
      sort_by-Heads [] = tt
      sort_by-Heads (x ∷ xs) =
          Heads-insert_sorted x (sort_by xs) xs (sort_by-nil xs) (sort_by-Heads xs)

      pub sort_by_first :
          (xs : List A) (h : A) (hs : List A)
          → sort_by xs ≡ h ∷ hs
          → All (λ x. before x h ≡ false) xs
      sort_by_first xs h hs e = subst (λ ys. Heads ys xs) e (sort_by-Heads xs)
