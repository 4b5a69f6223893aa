-- ===== src/EnvCache/Quota.antt =====
-- What `_evict_to_quota` of agent/looma_agent/tasks/env/cache.py leaves.
use mathlib.Core.Path.{subst₂, subst}
use looma.Base.{
  leb, if◌then◌else◌, leb→le, Bool-cases, is_some, if_either, ==-refl, string_eq, nat_eq, All,
  All-map_pred, ℕ, ◌-◌, ◌≤◌, ◌<◌, String, ◌≡◌, refl, sym, ◌⊎◌, inl, inr, Bool, true, false, not,
  ◌&&◌, none, some, List, [], ◌∷◌, arith,
}
use looma.Base.Dict.{Dict, lookup, erase, NodupKeys, lookup-erase, erase-NodupKeys}
use looma.Base.Sort.{sort_by-All, All-sort_by}
use looma.EnvCache.{
  EnvironmentCache, Folder, Candidate, unleased, candidates, used_before, total_bytes, evict_loop,
  evict_to_quota, is_counted, candidate,
}
use looma.EnvCache.Apart.{Apart, sort_by-Apart}
use looma.EnvCache.Evicting.{Stands, Differ, evict_loop-Fits}

Stands-cons :
    (name : String) (d : Folder) (fs : Dict String Folder)
    → lookup name fs ≡ none
    → (k : Candidate) → Stands fs k
    → Stands ((name, d) ∷ fs) k
unfolding lookup
Stands-cons name d fs fresh k (x, at, counted, size) = (x, ground (arith, fresh, at), counted, size)

unleased-Stands :
    (leases : Dict String ℕ) (fs : Dict String Folder)
    → NodupKeys fs
    → All (Stands fs) (unleased leases fs)
unfolding unleased lookup
unleased-Stands leases [] u = tt
unleased-Stands leases ((name, d) ∷ fs) (fresh, u) =
    let rest =
      All-map_pred _ (Stands ((name, d) ∷ fs)) (Stands-cons name d fs fresh) (unleased leases fs)
        (unleased-Stands leases fs u) in
    elim (Bool-cases (is_counted name d && not (is_some (lookup name leases)))) [
      | inl listed ↦
          rw (listed, unleased)
            ((d, ground (arith, ==-refl name), ground (arith, listed), refl), rest)
      | inr out ↦ rw (out, unleased) rest
    ]

-- The candidates have different names.
unleased-Apart :
    (leases : Dict String ℕ) (fs : Dict String Folder)
    → NodupKeys fs
    → Apart Differ (unleased leases fs)
unfolding unleased
unleased-Apart leases [] u = tt
unleased-Apart leases ((name, d) ∷ fs) (fresh, u) =
    let others =
      All-map_pred _ (Differ (candidate name d))
        (λ k stands same. let (_, at, _, _) = stands in absurd (ground (arith, at, fresh, same)))
        (unleased leases fs) (unleased-Stands leases fs u) in
    let rest = unleased-Apart leases fs u in
    if_either (Apart Differ) (is_counted name d && not (is_some (lookup name leases)))
      (others, rest) rest

All_if :
    (P : Candidate → Type 0) (b : Bool) (k : Candidate) (ks : List Candidate)
    → All P (if b then k ∷ ks else ks)
    → All P ks
All_if P true k ks h = h.1
All_if P false k ks h = h

-- A directory that counts and is not leased is a candidate.
at_unleased :
    (P : Candidate → Type 0) (leases : Dict String ℕ) (fs : Dict String Folder) (name : String)
    (d : Folder)
    → lookup name fs ≡ some d
    → is_counted name d ≡ true
    → is_some (lookup name leases) ≡ false
    → All P (unleased leases fs)
    → P (candidate name d)
unfolding unleased lookup
at_unleased P leases [] name d at counted free h = cc
at_unleased P leases ((n, x) ∷ fs) name d at counted free h = elim (string_eq.dec name n) [
  | yes same ↦
      let first : x ≡ d = ground (arith, same, at) in
      let listed : (is_counted n x && not (is_some (lookup n leases))) ≡ true =
        ground (arith, same, first, counted, free) in
      let found : P (candidate n x) =
        (subst (λ b. All P (if b then candidate n x ∷ unleased leases fs else unleased leases fs))
          listed h).0 in
      subst₂ (λ m y. P (candidate m y)) (sym same) first found
  | no differ ↦
      at_unleased P leases fs name d (ground (arith, differ, at)) counted free
        (All_if P _ (candidate n x) (unleased leases fs) h)
]

-- What stands after the loop stood before it.
evict_loop-lookup :
    (quota total : ℕ) (ks : List Candidate) (fs : Dict String Folder) (name : String) (d : Folder)
    → NodupKeys fs
    → lookup name (evict_loop quota total ks fs) ≡ some d
    → lookup name fs ≡ some d
unfolding evict_loop
evict_loop-lookup quota total [] fs name d u = λ at. at
evict_loop-lookup quota total (k ∷ ks) fs name d u = elim (Bool-cases (leb total quota)) [
  | inl enough ↦ rw (enough, evict_loop) λ at. at
  | inr more ↦
      rw (more, evict_loop)
        λ at.
          let before =
            evict_loop-lookup quota (total - k.size_bytes) ks (erase k.name fs) name d
              (erase-NodupKeys k.name fs u) at in
          ground (arith, before, lookup-erase name k.name fs u)
]

-- The directories fit into the quota, or all that count are leased.
abbrev pub Bounded : EnvironmentCache → Dict String Folder → Type 0
Bounded c fs =
    (total_bytes fs ≤ c.quota_bytes)
    ⊎ ((name : String) (d : Folder)
        → lookup name fs ≡ some d
        → is_counted name d ≡ true
        → is_some (lookup name c.leases) ≡ true)

-- After an eviction the environments fit into the quota, or every environment that is left is leased
-- to a task. A quota of zero is no limit, and the names of the directories are different.
pub evict_to_quota-Bounded :
    (c : EnvironmentCache)
    → 0 < c.quota_bytes
    → NodupKeys c.folders
    → Bounded c (evict_to_quota c).folders
unfolding evict_to_quota candidates
evict_to_quota-Bounded c limited u = elim (Bool-cases (leb (total_bytes c.folders) c.quota_bytes)) [
  | inl enough ↦
      let same : evict_to_quota c ≡ c = ground (arith, enough) in
      inl (ground (arith, leb→le _ _ enough, same))
  | inr more ↦
      let total = total_bytes c.folders in
      let same : (evict_to_quota c).folders
          ≡ evict_loop c.quota_bytes total (candidates c) c.folders =
        ground (arith, more, limited) in
      let raw = unleased c.leases c.folders in
      let fits =
        evict_loop-Fits c.quota_bytes total (candidates c) c.folders refl u
          (sort_by-Apart Differ (λ j k differ e. differ (sym e)) used_before raw
            (unleased-Apart c.leases c.folders u))
          (sort_by-All used_before (Stands c.folders) raw (unleased-Stands c.leases c.folders u)) in
      subst (Bounded c) (sym same) (elim fits [
        | inl small ↦ inl small
        | inr gone ↦ inr λ name d at counted. elim (Bool-cases (is_some (lookup name c.leases))) [
          | inl leased ↦ leased
          | inr free ↦
              let before =
                evict_loop-lookup c.quota_bytes total (candidates c) c.folders name d u at in
              let missing =
                at_unleased (λ k. lookup k.name _ ≡ none) c.leases c.folders name d before counted
                  free (All-sort_by used_before _ raw gone) in
              absurd (ground (arith, missing, at))
        ]
      ])
]
