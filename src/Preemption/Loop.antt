-- ===== src/Preemption/Loop.antt =====
-- The loop that puts groups out: what it takes, from whom, and when it gives up.
use looma.Base.{
  ◌∙◌, ap, refl, leb→le, Bool-cases, inl, inr, leb, leb→lt, Bool-cases, contains, string_eq, nat_eq,
  All, length, is_nil, length-append, All-append, All-map_pred, ℕ, ◌+◌, ◌≤◌, ◌<◌, String, ◌≡◌, refl,
  inl, inr, Bool, true, false, not, ◌||◌, List, [], ◌∷◌, ◌++◌, arith,
}
use looma.Base.Distinct.{
  contains-append, contains-filter, All-self, Distinct, Distinct-append, filter-Distinct,
}
use looma.Base.Filter.{filter, filter-All, filter-All_self}
use looma.Preemption.{Standing, evict_loop, fresh_of}

-- Whether one of the groups holds the node.
abbrev pub covers : List Standing → String → Bool
covers [] node = false
covers (g ∷ gs) node = contains g.nodes node || covers gs node

covers-append :
    (gs hs : List Standing) (node : String)
    → covers (gs ++ hs) node ≡ (covers gs node || covers hs node)
covers-append [] hs node = refl
covers-append (g ∷ gs) hs node = ground (arith, covers-append gs hs node)

All-trivial : (gs : List Standing) → All (λ g. Unit {0}) gs
All-trivial [] = tt
All-trivial (g ∷ gs) = (tt, All-trivial gs)

not_nil : (xs : List String) → is_nil xs ≡ false → 1 ≤ length xs
not_nil [] h = cc
not_nil (x ∷ xs) h = omega arith

seen-All :
    (taken nodes : List String)
    → is_nil (filter (λ node. not (contains taken node)) nodes) ≡ true
    → All (λ n. contains taken n ≡ true) nodes
unfolding filter
seen-All taken [] h = tt
seen-All taken (n ∷ nodes) h = ground (arith, seen-All taken nodes)

now_taken :
    (n : String) (g : Standing) (taken : List String)
    → contains g.nodes n ≡ true
    → contains (taken ++ fresh_of taken g) n ≡ true
now_taken n g taken m = ground (
  arith,
  m,
  contains-append taken (fresh_of taken g) n,
  contains-filter (λ node. not (contains taken node)) g.nodes n,
)

module _ (need : ℕ) where
  -- `evict_loop` with what it has taken as what it has seen, as `plan` starts it.
  abbrev from : List Standing → List String → List Standing → List String × List Standing
  from groups taken evict = evict_loop need groups taken taken evict

  -- The invariant rule: a group is put out only while nodes are missing, and only if it brings some.
  pub evict_loop_inv :
      (P : List String → List Standing → Type 0) (Q : Standing → Type 0)
      → ((g : Standing) (taken : List String) (evict : List Standing)
          → Q g
          → length taken < need
          → is_nil (fresh_of taken g) ≡ false
          → P taken evict
          → P (taken ++ fresh_of taken g) (evict ++ (g ∷ [])))
      → (groups : List Standing) (taken : List String) (evict : List Standing) → All Q groups
      → P taken evict
      → P (from groups taken evict).0 (from groups taken evict).1
  unfolding evict_loop
  evict_loop_inv P Q keep [] taken evict q h = h
  evict_loop_inv P Q keep (g ∷ groups) taken evict q h =
      elim (Bool-cases (leb need (length taken))) [
        | inl enough ↦ rw (enough, evict_loop) h
        | inr short ↦ elim (Bool-cases (is_nil (fresh_of taken g))) [
          | inl stale ↦
              rw (short, stale, evict_loop) (evict_loop_inv P Q keep groups taken evict q.1 h)
          | inr fresh ↦
              rw (short, fresh, evict_loop)
                (evict_loop_inv P Q keep groups (taken ++ fresh_of taken g) (evict ++ (g ∷ [])) q.1
                  (keep g taken evict q.0 (leb→lt need (length taken) short) fresh h))
        ]
      ]

  -- What is taken has no repetitions, if no group lists a node twice.
  pub evict_loop-Distinct :
      (groups : List Standing) (taken : List String) (evict : List Standing)
      → Distinct taken
      → All (λ g. Distinct g.nodes) groups
      → Distinct (from groups taken evict).0
  evict_loop-Distinct groups taken evict d h =
      evict_loop_inv (λ ns _. Distinct ns) (λ g. Distinct g.nodes)
        (λ g ns es u _ _ dns. Distinct-append ns (fresh_of ns g) dns (filter-Distinct _ g.nodes u) (
          All-map_pred _ _ (λ y p. ground arith) (fresh_of ns g)
            (filter-All_self (λ node. not (contains ns node)) g.nodes)))
        groups taken evict h d

  pub evict_loop-All :
      (P : Standing → Type 0) (groups : List Standing) (taken : List String) (evict : List Standing)
      → All P groups
      → All P evict
      → All P (from groups taken evict).1
  evict_loop-All P groups taken evict h he =
      evict_loop_inv (λ _ es. All P es) P (λ g ns es q _ _ k. All-append P es (g ∷ []) k (q, tt))
        groups taken evict h he

  -- Every node taken was free or belongs to a group that is put out.
  pub evict_loop-sources :
      (free : List String) (groups : List Standing) (taken : List String) (evict : List Standing)
      → All (λ n. (contains free n || covers evict n) ≡ true) taken
      → All
          (λ n. (contains free n || covers (from groups taken evict).1 n) ≡ true)
          (from groups taken evict).0
  evict_loop-sources free groups taken evict h =
      evict_loop_inv (λ ns es. All (λ n. (contains free n || covers es n) ≡ true) ns)
        (λ g. Unit {0})
        (λ g ns es _ _ _ k.
          All-append _ ns (fresh_of ns g)
            (All-map_pred _ _ (λ n p. ground (arith, p, covers-append es (g ∷ []) n)) ns k)
            (All-map_pred _ _
              (λ n (p : contains g.nodes n ≡ true). ground (arith, covers-append es (g ∷ []) n))
              (fresh_of ns g) (filter-All _ _ g.nodes (All-self g.nodes))))
        groups taken evict (All-trivial groups) h

  -- Every group that is put out brings at least one node.
  pub evict_loop-counts :
      (groups : List Standing) (taken : List String) (evict : List Standing)
      → length (from groups taken evict).1 + length taken
        ≤ length (from groups taken evict).0 + length evict
  evict_loop-counts groups taken evict =
      evict_loop_inv (λ ns es. length es + length taken ≤ length ns + length evict) (λ g. Unit {0})
        (λ g ns es _ _ fresh k. omega (
          arith,
          length-append es (g ∷ []),
          length-append ns (fresh_of ns g),
          not_nil (fresh_of ns g) fresh,
        ))
        groups taken evict (All-trivial groups) (omega arith)

  pub evict_loop-keeps :
      (a : String) (groups : List Standing) (taken : List String) (evict : List Standing)
      → contains taken a ≡ true
      → contains (from groups taken evict).0 a ≡ true
  evict_loop-keeps a groups taken evict m =
      evict_loop_inv (λ ns _. contains ns a ≡ true) (λ g. Unit {0})
        (λ g ns es _ _ _ k. ground (arith, k, contains-append ns (fresh_of ns g) a)) groups taken
        evict (All-trivial groups) m

  -- The loop gives up only when every node of every group has been taken.
  pub evict_loop-exhausts :
      (r : List String) (groups : List Standing) (taken : List String) (evict : List Standing)
      → r ≡ (from groups taken evict).0
      → length r < need
      → All (λ g. All (λ n. contains r n ≡ true) g.nodes) groups
  unfolding evict_loop
  evict_loop-exhausts r [] taken evict e short = tt
  evict_loop-exhausts r (g ∷ groups) taken evict e short =
      elim (Bool-cases (leb need (length taken))) [
        | inl enough ↦
            let stopped : r ≡ taken = e ∙ rw (enough, evict_loop) refl in
            absurd (omega (arith, leb→le need (length taken) enough, ap length stopped))
        | inr more ↦ elim (Bool-cases (is_nil (fresh_of taken g))) [
          | inl stale ↦
              let e' : r ≡ (from groups taken evict).0 = e ∙ rw (more, stale, evict_loop) refl in
              (
                All-map_pred _ _ (λ n m. rw e' (evict_loop-keeps n groups taken evict m)) g.nodes
                    (seen-All taken g.nodes stale),
                evict_loop-exhausts r groups taken evict e' short,
              )
          | inr fresh ↦
              let ns = taken ++ fresh_of taken g in
              let es = evict ++ (g ∷ []) in
              let e' : r ≡ (from groups ns es).0 = e ∙ rw (more, fresh, evict_loop) refl in
              (
                All-map_pred _ _
                    (λ n m. rw e' (evict_loop-keeps n groups ns es (now_taken n g taken m))) g.nodes
                    (All-self g.nodes),
                evict_loop-exhausts r groups ns es e' short,
              )
        ]
      ]
