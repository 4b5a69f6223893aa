-- ===== src/Placement/Choice.antt =====
-- Where `choose_node` places a task, and when it refuses.
use looma.Base.Filter.{filter-All_self, filter-All, All-filter, filter}
use looma.Base.{
  sym, All-both, All-map_pred, string_eq, nat_eq, All, ℕ, zero, suc, ◌+◌, ◌-◌, ◌≤◌, String, ◌≡◌,
  refl, ◌⊎◌, inl, inr, true, false, Option, none, some, List, [], ◌∷◌, arith,
}
use looma.Base.Sort.{sort_by-All, sort_by_first, sort_by-nil}
use mathlib.Core.Path.{subst, subst₂}
use looma.Base.Dict.{values, Dict, lookup, NodupKeys}
use looma.Placement.{
  why_nothing_fits, first_fitting, refused, fitting, placed, Reason, choose_node, Resources,
  NodeInfo, free_of, holds, subtract, free_table, emptier, remaining,
}

-- Strictly more is left: by cards, then by video memory, then by memory.
pub data Roomier (l r : Resources) : Type 0 where
  by_gpus : r.gpus + 1 ≤ l.gpus → Roomier l r
  by_vram : l.gpus ≡ r.gpus → r.vram_bytes + 1 ≤ l.vram_bytes → Roomier l r
  by_ram :
      l.gpus ≡ r.gpus → l.vram_bytes ≡ r.vram_bytes → r.ram_bytes + 1 ≤ l.ram_bytes → Roomier l r

-- In every dimension that the task asks for.
abbrev pub FitsBeside : Resources → Resources → Resources → Type 0
FitsBeside available taken wanted =
    ((wanted.vram_bytes ≡ 0) ⊎ (taken.vram_bytes + wanted.vram_bytes ≤ available.vram_bytes))
    × ((wanted.ram_bytes ≡ 0) ⊎ (taken.ram_bytes + wanted.ram_bytes ≤ available.ram_bytes))
    × ((wanted.cpus ≡ 0) ⊎ (taken.cpus + wanted.cpus ≤ available.cpus))
    × ((wanted.gpus ≡ 0) ⊎ (taken.gpus + wanted.gpus ≤ available.gpus))
    × ((wanted.disk_bytes ≡ 0) ⊎ (taken.disk_bytes + wanted.disk_bytes ≤ available.disk_bytes))

one_left : (a t w : ℕ) → w ≤ a - t → (w ≡ 0) ⊎ (t + w ≤ a)
one_left a t zero h = inl refl
one_left a t (suc w) h = inr (omega arith)

-- What is left after another task's share holds the wanted only if both fit together.
pub holds-subtract :
    (available taken wanted : Resources)
    → holds (subtract available taken) wanted ≡ true
    → FitsBeside available taken wanted
unfolding holds subtract
holds-subtract a t w h = (
  one_left a.vram_bytes t.vram_bytes w.vram_bytes (ground (arith, h)),
  one_left a.ram_bytes t.ram_bytes w.ram_bytes (ground (arith, h)),
  one_left a.cpus t.cpus w.cpus (ground (arith, h)),
  one_left a.gpus t.gpus w.gpus (ground (arith, h)),
  one_left a.disk_bytes t.disk_bytes w.disk_bytes (ground (arith, h)),
)

abbrev none_taken : Resources
none_taken = record { vram_bytes = 0; ram_bytes = 0; cpus = 0; gpus = 0; disk_bytes = 0 }

abbrev pub taken_of : Option Resources → Resources
taken_of none = none_taken
taken_of (some r) = r

holds-remaining :
    (taken : Option Resources) (available wanted : Resources)
    → holds (remaining taken available) wanted ≡ true
    → FitsBeside available (taken_of taken) wanted
unfolding holds
holds-remaining none a w h = (
  inr (ground (arith, h)),
  inr (ground (arith, h)),
  inr (ground (arith, h)),
  inr (ground (arith, h)),
  inr (ground (arith, h)),
)
holds-remaining (some t) a w h = holds-subtract a t w h

module _ (reserved : Dict String Resources) where
  -- An entry of the table is a node with what its info and the reservations leave.
  abbrev Entry : Dict String NodeInfo → String × Resources → Type 0
  Entry nodes (id, left) =
      (info : NodeInfo) × (lookup id nodes ≡ some info)
      × (left ≡ remaining (lookup id reserved) (free_of info))

  Entry-cons :
      (j : String) (i : NodeInfo) (nodes : Dict String NodeInfo) (table : List (String × Resources))
      → lookup j nodes ≡ none
      → All (Entry nodes) table
      → All (Entry ((j, i) ∷ nodes)) table
  unfolding lookup
  Entry-cons j i nodes [] new h = tt
  Entry-cons j i nodes ((id, left) ∷ table) new h =
      ((h.0.0, ground (arith, new, h.0.1), h.0.2), Entry-cons j i nodes table new h.1)

  free_table-Entry :
      (nodes : Dict String NodeInfo)
      → NodupKeys nodes
      → All (Entry nodes) (free_table reserved nodes)
  unfolding free_table lookup
  free_table-Entry [] u = tt
  free_table-Entry ((id, info) ∷ nodes) u = (
    (info, ground arith, refl),
    Entry-cons id info nodes (free_table reserved nodes) u.0 (free_table-Entry nodes u.1),
  )

  emptier-Roomier :
      (i j : String) (l r : Resources) → emptier (i, l) (j, r) ≡ false → ¬ (Roomier l r)
  emptier-Roomier i j l r h (by_gpus more) = ground (arith, h, more)
  emptier-Roomier i j l r h (by_vram same more) = ground (arith, h, same, more)
  emptier-Roomier i j l r h (by_ram same twin more) = ground (arith, h, same, twin, more)

  emptier_asym : (a b : String × Resources) → emptier a b ≡ true → emptier b a ≡ false
  emptier_asym a b h = ground (arith, h)

  emptier_neg_trans :
      (a b c : String × Resources) → emptier b a ≡ false → emptier c b ≡ false → emptier c a ≡ false
  emptier_neg_trans a b c p q = ground (arith, p, q)

  free_table-at :
      (P : String × Resources → Type 0) (nodes : Dict String NodeInfo) (j : String)
      (other : NodeInfo)
      → All P (free_table reserved nodes)
      → lookup j nodes ≡ some other
      → P (j, remaining (lookup j reserved) (free_of other))
  unfolding free_table lookup
  free_table-at P [] j other h at = cc
  free_table-at P ((k, info) ∷ nodes) j other h at = elim (string_eq.dec j k) [
    | yes same ↦
        let this : info ≡ other = ground (arith, at, same) in
        subst₂ (λ n i. P (n, remaining (lookup n reserved) (free_of i))) (sym same) this h.0
    | no differ ↦ free_table-at P nodes j other h.1 (ground (arith, at, differ))
  ]

  -- A task is placed on a known node that has room for it beside what is reserved there, in every
  -- dimension that it asks for; and no node that could hold it has strictly more left, by cards, then
  -- by video memory, then by memory, than this node has beside what is reserved on it.
  pub choose_node-fits :
      (nodes : Dict String NodeInfo) (wanted : Resources) (id : String)
      → NodupKeys nodes
      → choose_node nodes wanted reserved ≡ placed id
      → (info : NodeInfo) × (lookup id nodes ≡ some info)
        × FitsBeside (free_of info) (taken_of (lookup id reserved)) wanted
        × ((j : String) (other : NodeInfo)
            → lookup j nodes ≡ some other
            → holds (remaining (lookup j reserved) (free_of other)) wanted ≡ true
            → ¬ (
                Roomier
                  (remaining (lookup j reserved) (free_of other))
                  (remaining (lookup id reserved) (free_of info))))
  unfolding choose_node
  choose_node-fits nodes wanted id u = go (fitting wanted free) refl
    where
      free : Dict String Resources
      free = free_table reserved nodes

      go :
          (chosen : List (String × Resources))
          → fitting wanted free ≡ chosen
          → first_fitting free wanted chosen ≡ placed id
          → (info : NodeInfo) × (lookup id nodes ≡ some info)
            × FitsBeside (free_of info) (taken_of (lookup id reserved)) wanted
            × ((j : String) (other : NodeInfo)
                → lookup j nodes ≡ some other
                → holds (remaining (lookup j reserved) (free_of other)) wanted ≡ true
                → ¬ (
                    Roomier
                      (remaining (lookup j reserved) (free_of other))
                      (remaining (lookup id reserved) (free_of info))))
      go [] e p = cc
      go ((j, left) ∷ rest) e p =
          let same : j ≡ id = ground (arith, p) in
          let kept : All (λ x. Entry nodes x × (holds x.1 wanted ≡ true)) (fitting wanted free) =
            sort_by-All emptier _ (filter (λ x. holds x.1 wanted) free) (
              All-both _ _ (filter (λ x. holds x.1 wanted) free)
                (filter-All _ (λ x. holds x.1 wanted) free (free_table-Entry nodes u))
                (filter-All_self (λ x. holds x.1 wanted) free)) in
          let ((entry, room), _) =
            subst (All (λ x. Entry nodes x × (holds x.1 wanted ≡ true))) e kept in
          let first =
            All-filter (λ x. emptier x (j, left) ≡ false) (λ x. holds x.1 wanted) free
              (sort_by_first emptier emptier_asym emptier_neg_trans
                (filter (λ x. holds x.1 wanted) free) (j, left) rest e) in
          rw (← same) (
            entry.0,
            entry.1,
            holds-remaining (lookup j reserved) (free_of entry.0) wanted (rw (← entry.2) room),
            λ k other at roomy.
                emptier-Roomier k j (remaining (lookup k reserved) (free_of other))
                  (remaining (lookup j reserved) (free_of entry.0))
                  (free_table-at
                    (λ x.
                      holds x.1 wanted ≡ true
                      → emptier x (j, remaining (lookup j reserved) (free_of entry.0)) ≡ false)
                    nodes k other
                    (subst (λ l. All (λ x. holds x.1 wanted ≡ true → emptier x (j, l) ≡ false) free)
                      entry.2 first)
                    at roomy),
          )

  -- A refusal means that no node holds the task beside what is reserved on it.
  pub choose_node-refuses :
      (nodes : Dict String NodeInfo) (wanted : Resources) (why : Reason)
      → choose_node nodes wanted reserved ≡ refused why
      → All (λ e. holds e.1 wanted ≡ false) (free_table reserved nodes)
        × (why ≡ why_nothing_fits (values (free_table reserved nodes)) wanted)
  unfolding choose_node
  choose_node-refuses nodes wanted why = go (fitting wanted free) refl
    where
      free : Dict String Resources
      free = free_table reserved nodes

      go :
          (chosen : List (String × Resources))
          → fitting wanted free ≡ chosen
          → first_fitting free wanted chosen ≡ refused why
          → All (λ e. holds e.1 wanted ≡ false) free × (why ≡ why_nothing_fits (values free) wanted)
      go ((j, left) ∷ rest) e p = cc
      go [] e p =
          let none_fit : filter (λ x. holds x.1 wanted) free ≡ [] =
            sort_by-nil emptier emptier_asym emptier_neg_trans (filter (λ x. holds x.1 wanted) free)
              e in
          (
            All-map_pred _ _ (λ x h. ground (arith, h)) free
                (All-filter (λ x. ⊥) (λ x. holds x.1 wanted) free (rw none_fit tt)),
            ground (arith, p),
          )
