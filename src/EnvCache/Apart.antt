-- ===== src/EnvCache/Apart.antt =====
-- Lists whose items are apart from each other stay so when they are sorted.
use looma.Base.{if_either, string_eq, nat_eq, All, Bool, List, [], ◌∷◌}
use looma.Base.Sort.{sort_by, sort_by-All, insert_sorted, insert_sorted-All}

module _ {A : Type 0} (R : A → A → Type 0) where
  abbrev pub Apart : List A → Type 0
  Apart [] = Unit
  Apart (x ∷ xs) = All (R x) xs × Apart xs

  module _ (symm : (x y : A) → R x y → R y x) (before : A → A → Bool) where
    insert_sorted-Apart :
        (x : A) (ys : List A) → All (R x) ys → Apart ys → Apart (insert_sorted before x ys)
    unfolding insert_sorted
    insert_sorted-Apart x [] h a = (tt, tt)
    insert_sorted-Apart x (y ∷ ys) (r, h) (s, a) =
        if_either Apart (before y x)
          (insert_sorted-All before (R y) x ys (symm x y r) s, insert_sorted-Apart x ys h a)
          ((r, h), (s, a))

    pub sort_by-Apart : (xs : List A) → Apart xs → Apart (sort_by before xs)
    unfolding sort_by
    sort_by-Apart [] a = tt
    sort_by-Apart (x ∷ xs) (h, a) =
        insert_sorted-Apart x (sort_by before xs) (sort_by-All before (R x) xs h)
          (sort_by-Apart xs a)
