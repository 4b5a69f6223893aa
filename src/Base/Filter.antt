-- ===== src/Base/Filter.antt =====
-- Comprehensions `[x for x in xs if p(x)]`.
use looma.Base.{
  Bool-cases, inl, inr, ℕ, ◌+◌, ◌≤◌, ◌≡◌, refl, Bool, true, List, [], ◌∷◌, arith, if◌then◌else◌,
  length, All,
}

module _ {A : Type 0} (p : A → Bool) where
  unfoldable pub filter : List A → List A
  filter [] = []
  filter (x ∷ xs) = let rest = filter xs in if p x then x ∷ rest else rest

  -- `sum(1 for x in xs if p(x))`
  unfoldable pub count_if : List A → ℕ
  count_if [] = 0
  count_if (x ∷ xs) = (if p x then 1 else 0) + count_if xs

  pub filter-All_self : (xs : List A) → All (λ x. p x ≡ true) (filter xs)
  unfolding filter
  filter-All_self [] = tt
  filter-All_self (x ∷ xs) = ground (arith, filter-All_self xs)

  pub length-filter_le : (xs : List A) → length (filter xs) ≤ length xs
  unfolding filter
  length-filter_le [] = omega arith
  length-filter_le (x ∷ xs) = ground (arith, length-filter_le xs)

  pub length-filter : (xs : List A) → length (filter xs) ≡ count_if xs
  unfolding filter count_if
  length-filter [] = refl
  length-filter (x ∷ xs) = ground (arith, length-filter xs)

module _ {A : Type 0} (P : A → Type 0) (p : A → Bool) where
  pub filter-All : (xs : List A) → All P xs → All P (filter p xs)
  unfolding filter
  filter-All [] h = tt
  filter-All (x ∷ xs) h = ground (arith, filter-All xs h.1)

  -- What holds of the items kept holds of every item that passes the test.
  pub All-filter : (xs : List A) → All P (filter p xs) → All (λ x. p x ≡ true → P x) xs
  unfolding filter
  All-filter [] = λ h. tt
  All-filter (x ∷ xs) = elim (Bool-cases (p x)) [
    | inl keep ↦ rw (keep, filter) (λ h. (λ _. h.0, All-filter xs h.1))
    | inr skip ↦ rw (skip, filter) (λ h. (λ m. absurd (ground (arith, m)), All-filter xs h))
  ]
