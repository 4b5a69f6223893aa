-- ===== src/Base/Distinct.antt =====
-- Sets of texts as lists with no item twice: `dict.fromkeys`, `set`, and counting by them.
use looma.Base.Filter.{filter}
use looma.Base.{
  Bool, inl, inr, Bool-cases, if◌then◌else◌, Eq, ◌==◌, contains, string_eq, nat_eq, All, length,
  take, All-map_pred, ℕ, zero, suc, ◌≤◌, ◌≡◌, refl, ◌≢◌, true, false, not, ◌&&◌, ◌||◌, List, [],
  ◌∷◌, ◌++◌, arith,
}

module _ {A : Type 0} ⦃e : Eq A⦄ where
  -- No item is listed twice.
  abbrev pub Distinct : List A → Type 0
  Distinct [] = Unit
  Distinct (x ∷ xs) = (contains xs x ≡ false) × Distinct xs

  -- The first occurrences in `xs` of what `seen` does not hold.
  unfoldable pub distinct_from : List A → List A → List A
  distinct_from seen [] = []
  distinct_from seen (x ∷ xs) =
      let old = distinct_from seen xs in
      let new = x ∷ distinct_from (x ∷ seen) xs in if contains seen x then old else new

  pub contains-append :
      (xs ys : List A) (a : A) → contains (xs ++ ys) a ≡ (contains xs a || contains ys a)
  contains-append [] ys a = refl
  contains-append (x ∷ xs) ys a = ground (arith, contains-append xs ys a)

  pub contains-distinct_from :
      (seen xs : List A) (a : A)
      → contains (distinct_from seen xs) a ≡ (contains xs a && not (contains seen a))
  unfolding distinct_from
  contains-distinct_from seen [] a = refl
  contains-distinct_from seen (x ∷ xs) a =
      ground (arith, contains-distinct_from seen xs a, contains-distinct_from (x ∷ seen) xs a)

  pub distinct_from-Distinct : (seen xs : List A) → Distinct (distinct_from seen xs)
  unfolding distinct_from
  distinct_from-Distinct seen [] = tt
  distinct_from-Distinct seen (x ∷ xs) = ground (
    arith,
    distinct_from-Distinct seen xs,
    distinct_from-Distinct (x ∷ seen) xs,
    contains-distinct_from (x ∷ seen) xs x,
  )

  pub Distinct-append :
      (xs ys : List A)
      → Distinct xs
      → Distinct ys
      → All (λ y. contains xs y ≡ false) ys
      → Distinct (xs ++ ys)
  Distinct-append [] ys dx dy h = dy
  Distinct-append (x ∷ xs) ys dx dy h = (
    rw (contains-append xs ys x, dx.0) (absent ys h),
    Distinct-append xs ys dx.1 dy (All-map_pred _ _ (λ y p. ground arith) ys h),
  )
    where
      absent : (zs : List A) → All (λ y. contains (x ∷ xs) y ≡ false) zs → contains zs x ≡ false
      absent [] h = refl
      absent (z ∷ zs) h = ground (arith, absent zs h.1)

  pub contains-take :
      (n : ℕ) (xs : List A) (a : A) → contains xs a ≡ false → contains (take n xs) a ≡ false
  contains-take zero xs a h = refl
  contains-take (suc n) [] a h = refl
  contains-take (suc n) (x ∷ xs) a h = ground (arith, contains-take n xs a)

  pub Distinct-take : (n : ℕ) (xs : List A) → Distinct xs → Distinct (take n xs)
  Distinct-take zero xs d = tt
  Distinct-take (suc n) [] d = tt
  Distinct-take (suc n) (x ∷ xs) d = (contains-take n xs x d.0, Distinct-take n xs d.1)

  -- An item that a predicate over the list covers.
  pub All-contains : (P : A → Type 0) (xs : List A) (a : A) → All P xs → contains xs a ≡ true → P a
  All-contains P [] a h m = cc
  All-contains P (x ∷ xs) a h m = ground (arith, h.0, All-contains P xs a h.1)

  without : A → List A → List A
  without a [] = []
  without a (x ∷ xs) = if a == x then xs else x ∷ without a xs

  length-without :
      (a : A) (xs : List A) → contains xs a ≡ true → length xs ≡ suc (length (without a xs))
  unfolding without
  length-without a [] m = cc
  length-without a (x ∷ xs) m = ground (arith, length-without a xs)

  contains-without_ne :
      (a b : A) (xs : List A) → b ≢ a → contains xs b ≡ true → contains (without a xs) b ≡ true
  unfolding without
  contains-without_ne a b [] ne m = cc
  contains-without_ne a b (x ∷ xs) ne m = ground (arith, contains-without_ne a b xs ne)

  -- As many different items as all stand in one list are not more than that list has.
  pub Distinct-length_le :
      (ys xs : List A) → Distinct ys → All (λ y. contains xs y ≡ true) ys → length ys ≤ length xs
  Distinct-length_le [] xs d h = omega arith
  Distinct-length_le (y ∷ ys) xs d h =
      omega (
        arith,
        length-without y xs h.0,
        Distinct-length_le ys (without y xs) d.1 (still ys d.0 h.1),
      )
    where
      still :
          (zs : List A)
          → contains zs y ≡ false
          → All (λ z. contains xs z ≡ true) zs
          → All (λ z. contains (without y xs) z ≡ true) zs
      still [] n h = tt
      still (z ∷ zs) n h =
          (contains-without_ne y z xs (λ p. ground arith) h.0, still zs (ground arith) h.1)

  pub contains-filter :
      (p : A → Bool) (xs : List A) (a : A) → contains (filter p xs) a ≡ (contains xs a && p a)
  unfolding filter
  contains-filter p [] a = refl
  contains-filter p (x ∷ xs) a = elim (Bool-cases (a == x)) [
    | inl same ↦ let e : a ≡ x = ground arith in rw (← e) (ground (arith, contains-filter p xs a))
    | inr differ ↦ ground (arith, contains-filter p xs a)
  ]

  pub filter-Distinct : (p : A → Bool) (xs : List A) → Distinct xs → Distinct (filter p xs)
  unfolding filter
  filter-Distinct p [] d = tt
  filter-Distinct p (x ∷ xs) d =
      ground (arith, filter-Distinct p xs d.1, contains-filter p xs x, d.0)

  pub contains-All :
      (P : A → Type 0) (xs : List A) → ((a : A) → contains xs a ≡ true → P a) → All P xs
  contains-All P [] h = tt
  contains-All P (x ∷ xs) h =
      (h x (ground arith), contains-All P xs (λ a m. h a (ground (arith, m))))

  pub All-self : (xs : List A) → All (λ x. contains xs x ≡ true) xs
  All-self xs = contains-All _ xs (λ a m. m)
