-- ===== src/Base/Dict.antt =====
-- Python's dicts, in insertion order. Proofs elsewhere go by the laws.
use mathlib.Core.Logic.{if_pos, if_neg}
use mathlib.Core.Path.{subst, subst₂}
use mathlib.Core.List.{append_assoc}
use looma.Base.{
  ap, ◌∙◌, sym, suc, ◌+◌, ◌≤◌, ◌≡◌, refl, ◌≢◌, Option, none, some, List, [], ◌∷◌, ◌++◌, arith, Eq,
  ◌==◌, if◌then◌else◌, length, All, is_some,
}

abbrev pub Dict : Type 0 → Type 0 → Type 0
Dict K V = List (K × V)

abbrev pub values : {K V : Type 0} → Dict K V → List V
values [] = []
values ((_, v) ∷ d) = v ∷ values d

abbrev pub keys : {K V : Type 0} → Dict K V → List K
keys [] = []
keys ((k, _) ∷ d) = k ∷ keys d

pub length-values : {K V : Type 0} (d : Dict K V) → length (values d) ≡ length d
length-values [] = refl
length-values (_ ∷ d) = omega (arith, length-values d)

module _ {K V : Type 0} ⦃e : Eq K⦄ where
  -- `d.get(k)`
  unfoldable pub lookup : K → Dict K V → Option V
  lookup k [] = none
  lookup k ((j, v) ∷ d) = if k == j then some v else lookup k d

  -- `d[k] = v`
  unfoldable pub insert : K → V → Dict K V → Dict K V
  insert k v [] = (k, v) ∷ []
  insert k v ((j, w) ∷ d) = if k == j then (k, v) ∷ d else (j, w) ∷ insert k v d

  -- `d.pop(k, None)`
  unfoldable pub erase : K → Dict K V → Dict K V
  erase k [] = []
  erase k ((j, w) ∷ d) = if k == j then d else (j, w) ∷ erase k d

  -- No key is listed twice, as in every Python dict.
  abbrev pub NodupKeys : Dict K V → Type 0
  NodupKeys [] = Unit
  NodupKeys ((k, _) ∷ d) = (lookup k d ≡ none) × NodupKeys d

  pub lookup-nil : (k : K) → lookup k [] ≡ none
  unfolding lookup
  lookup-nil k = refl

  pub lookup-insert :
      (j k : K) (v : V) (d : Dict K V)
      → lookup j (insert k v d) ≡ (if j == k then some v else lookup j d)
  unfolding insert lookup
  lookup-insert j k v [] = refl
  lookup-insert j k v (_ ∷ d) = ground (arith, lookup-insert j k v d)

  pub insert-NodupKeys : (k : K) (v : V) (d : Dict K V) → NodupKeys d → NodupKeys (insert k v d)
  unfolding insert
  insert-NodupKeys k v [] _ = (lookup-nil k, tt)
  insert-NodupKeys k v ((j, _) ∷ d) (fresh, u) =
      ground (arith, insert-NodupKeys k v d u, lookup-insert j k v d)

  pub lookup-erase_ne : (j k : K) (d : Dict K V) → j ≢ k → lookup j (erase k d) ≡ lookup j d
  unfolding lookup erase
  lookup-erase_ne j k [] ne = refl
  lookup-erase_ne j k (_ ∷ d) ne = ground (arith, lookup-erase_ne j k d ne)

  pub lookup-erase_self : (k : K) (d : Dict K V) → NodupKeys d → lookup k (erase k d) ≡ none
  unfolding lookup erase
  lookup-erase_self k [] _ = refl
  lookup-erase_self k (_ ∷ d) (fresh, u) = ground (arith, lookup-erase_self k d u)

  pub lookup-erase :
      (j k : K) (d : Dict K V)
      → NodupKeys d
      → lookup j (erase k d) ≡ (if j == k then none else lookup j d)
  lookup-erase j k d u = ground (arith, lookup-erase_self k d u, lookup-erase_ne j k d)

  pub erase-NodupKeys : (k : K) (d : Dict K V) → NodupKeys d → NodupKeys (erase k d)
  unfolding erase
  erase-NodupKeys k [] _ = tt
  erase-NodupKeys k ((j, _) ∷ d) (fresh, u) =
      ground (arith, erase-NodupKeys k d u, lookup-erase_ne j k d)

  pub length-insert :
      (k : K) (v : V) (d : Dict K V)
      → length (insert k v d) ≡ (if is_some (lookup k d) then length d else suc (length d))
  unfolding insert lookup
  length-insert k v [] = refl
  length-insert k v (_ ∷ d) = ground (arith, length-insert k v d)

  pub length-insert_le : (k : K) (v : V) (d : Dict K V) → length (insert k v d) ≤ length d + 1
  length-insert_le k v d = ground (arith, length-insert k v d)

  pub length-erase :
      (k : K) (d : Dict K V)
      → length d ≡ (if is_some (lookup k d) then suc (length (erase k d)) else length (erase k d))
  unfolding erase lookup
  length-erase k [] = refl
  length-erase k (_ ∷ d) = ground (arith, length-erase k d)

  -- A new key that is put in and taken out again leaves no trace.
  pub erase-insert_new :
      (k : K) (v : V) (d : Dict K V)
      → lookup k d ≡ none
      → (erase k (insert k v d) ≡ d) × (erase k d ≡ d)
  unfolding erase insert lookup
  erase-insert_new k v [] h = ground arith
  erase-insert_new k v ((j, w) ∷ d) h = ground (arith, h, erase-insert_new k v d)

module _ {K V : Type 0} ⦃e : Eq K⦄ (P : V → Type 0) where
  pub lookup-All : (k : K) {v : V} (d : Dict K V) → All P (values d) → lookup k d ≡ some v → P v
  unfolding lookup
  lookup-All k [] h found = cc
  lookup-All k {v} (_ ∷ d) h found = ground (arith, lookup-All k {v = v} d h.1)

  pub insert-All :
      (k : K) (v : V) (d : Dict K V) → P v → All P (values d) → All P (values (insert k v d))
  unfolding insert
  insert-All k v [] p h = (p, tt)
  insert-All k v ((j, w) ∷ d) p h = ground (arith, insert-All k v d p h.1)

  pub erase-All : (k : K) (d : Dict K V) → All P (values d) → All P (values (erase k d))
  unfolding erase
  erase-All k [] h = tt
  erase-All k (_ ∷ d) h = ground (arith, erase-All k d h.1)

-- What holds of every entry, key and value together.
abbrev pub Entries : {K V : Type 0} → (K → V → Type 0) → Dict K V → Type 0
Entries P [] = Unit
Entries P ((k, v) ∷ d) = P k v × Entries P d

module _ {K V : Type 0} ⦃e : Eq K⦄ (P : K → V → Type 0) where
  pub Entries-insert :
      (k : K) (v : V) (d : Dict K V) → P k v → Entries P d → Entries P (insert k v d)
  unfolding insert
  Entries-insert k v [] p h = (p, tt)
  Entries-insert k v ((j, w) ∷ d) p h = elim (e.dec k j) [
    | yes same ↦ rw (if_pos _ same, insert) (p, h.1)
    | no differ ↦ rw (if_neg _ differ, insert) (h.0, Entries-insert k v d p h.1)
  ]

  pub Entries-erase : (k : K) (d : Dict K V) → Entries P d → Entries P (erase k d)
  unfolding erase
  Entries-erase k [] h = tt
  Entries-erase k ((j, w) ∷ d) h = elim (e.dec k j) [
    | yes same ↦ rw (if_pos _ same, erase) h.1
    | no differ ↦ rw (if_neg _ differ, erase) (h.0, Entries-erase k d h.1)
  ]

  pub Entries-lookup : (k : K) (v : V) (d : Dict K V) → Entries P d → lookup k d ≡ some v → P k v
  unfolding lookup
  Entries-lookup k v [] h found = cc
  Entries-lookup k v ((j, w) ∷ d) h found = elim (e.dec k j) [
    | yes same ↦ let here : w ≡ v = ground (arith, found, same) in subst₂ P (sym same) here h.0
    | no differ ↦ Entries-lookup k v d h.1 (ground (arith, found, differ))
  ]

module _ {K V : Type 0} ⦃e : Eq K⦄ where
  -- A new key goes to the end.
  pub insert_new :
      (k : K) (v : V) (d : Dict K V) → lookup k d ≡ none → insert k v d ≡ d ++ (k, v) ∷ []
  unfolding insert lookup
  insert_new k v [] new = refl
  insert_new k v ((j, w) ∷ d) new = ground (arith, new, insert_new k v d)

  lookup-append_here :
      (j k : K) (v : V) (d rest : Dict K V) → lookup j (d ++ (k, v) ∷ rest) ≡ none → j ≢ k
  unfolding lookup
  lookup-append_here j k v [] rest h = ground (arith, h)
  lookup-append_here j k v (_ ∷ d) rest h = lookup-append_here j k v d rest (ground (arith, h))

  -- A key that comes later is not among those before it.
  pub lookup-append_NodupKeys :
      (k : K) (v : V) (d rest : Dict K V) → NodupKeys (d ++ (k, v) ∷ rest) → lookup k d ≡ none
  unfolding lookup
  lookup-append_NodupKeys k v [] rest u = refl
  lookup-append_NodupKeys k v ((j, w) ∷ d) rest u =
      let differ = lookup-append_here j k v d rest u.0 in
      let later = lookup-append_NodupKeys k v d rest u.1 in
      ground (arith, later, λ (same : k ≡ j). differ (sym same))

  pub append_one : (x : K × V) (d rest : Dict K V) → (d ++ x ∷ []) ++ rest ≡ d ++ x ∷ rest
  append_one x d rest = append_assoc d (x ∷ []) rest

  -- A key that comes later is put behind those before it.
  pub insert-append :
      (k : K) (v : V) (d rest : Dict K V)
      → NodupKeys (d ++ (k, v) ∷ rest)
      → (insert k v d ++ rest ≡ d ++ (k, v) ∷ rest) × NodupKeys (insert k v d ++ rest)
  insert-append k v d rest u =
      let put = insert_new k v d (lookup-append_NodupKeys k v d rest u) in
      let same = ap (λ x. x ++ rest) put ∙ append_one (k, v) d rest in
      (same, subst NodupKeys (sym same) u)
