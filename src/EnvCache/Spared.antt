-- ===== src/EnvCache/Spared.antt =====
-- Leases as a count of holders, and what an eviction spares, agent/looma_agent/tasks/env/cache.py.
use looma.Base.Sort.{sort_by-All}
use looma.Base.{
  ◌∙◌, eqb, ap, ◌||◌, or_zero, leb, if◌then◌else◌, is_some, if_either, ◌==◌, string_eq, nat_eq, All,
  ℕ, zero, suc, ◌+◌, ◌-◌, ◌<◌, String, ◌≡◌, refl, true, false, Option, none, some, List, [], ◌∷◌,
  arith,
}
use looma.Base.Dict.{
  Dict, lookup, insert, erase, NodupKeys, lookup-insert, lookup-erase, erase-NodupKeys,
}
use looma.EnvCache.{
  total_bytes, used_before, candidates, evict_to_quota, EnvironmentCache, Folder, Candidate,
  marker_at, ready, unleased, evict_loop,
}

abbrev pub lease_of : ℕ → Option ℕ
lease_of zero = none
lease_of (suc n) = some (suc n)

pub or_zero-lease_of : (n : ℕ) → or_zero (lease_of n) ≡ n
or_zero-lease_of zero = refl
or_zero-lease_of (suc n) = refl

pub lease_of_pos : (n : ℕ) → 0 < n → lease_of n ≡ some n
lease_of_pos zero h = absurd (omega (arith, h))
lease_of_pos (suc n) h = refl

-- How often a name stands in a list.
unfoldable pub count : String → List String → ℕ
count fp [] = 0
count fp (x ∷ xs) = let rest = count fp xs in if fp == x then rest + 1 else rest

-- Takes a name out once.
unfoldable pub without_one : String → List String → List String
without_one fp [] = []
without_one fp (x ∷ xs) = let rest = without_one fp xs in if fp == x then xs else x ∷ rest

pub count-without_one :
    (j fp : String) (xs : List String)
    → 0 < count fp xs
    → count j (without_one fp xs) ≡ count j xs - (if j == fp then 1 else 0)
unfolding count without_one
count-without_one j fp [] h = absurd (omega (arith, h))
count-without_one j fp (x ∷ xs) h = ground (arith, h, count-without_one j fp xs)

-- Each environment is leased as often as it is held, and what is held is ready.
pub record Holds (c : EnvironmentCache) (held : List String) : Type 0 where
  pub leases_once : NodupKeys c.leases
  pub folders_once : NodupKeys c.folders
  pub counted : (fp : String) → lookup fp c.leases ≡ lease_of (count fp held)
  pub on_disk : (fp : String) → 0 < count fp held → is_some (marker_at fp c.folders) ≡ true

is_some-ready :
    (fp : String) (c : EnvironmentCache) → is_some (ready fp c) ≡ is_some (marker_at fp c.folders)
unfolding ready
is_some-ready fp c = ground arith

pub marker_at-insert :
    (j fp : String) (d : Folder) (fs : Dict String Folder)
    → marker_at j (insert fp d fs) ≡ (if j == fp then d.marker else marker_at j fs)
unfolding marker_at
marker_at-insert j fp d fs = ground (arith, lookup-insert j fp d fs)

pub marker_at-some :
    (fp : String) (d : Folder) (fs : Dict String Folder)
    → lookup fp fs ≡ some d
    → marker_at fp fs ≡ d.marker
unfolding marker_at
marker_at-some fp d fs at = ground (arith, at)

unleased-names :
    (leases : Dict String ℕ) (fs : Dict String Folder)
    → All (λ k. is_some (lookup k.name leases) ≡ false) (unleased leases fs)
unfolding unleased
unleased-names leases [] = tt
unleased-names leases ((name, d) ∷ fs) = ground (arith, unleased-names leases fs)

evict_loop-spares :
    (quota total : ℕ) (leases : Dict String ℕ) (fp : String) (ks : List Candidate)
    (fs : Dict String Folder)
    → is_some (lookup fp leases) ≡ true
    → All (λ k. is_some (lookup k.name leases) ≡ false) ks
    → NodupKeys fs
    → lookup fp (evict_loop quota total ks fs) ≡ lookup fp fs
unfolding evict_loop
evict_loop-spares quota total leases fp [] fs leased free u = refl
evict_loop-spares quota total leases fp (k ∷ ks) fs leased (unheld, free) u =
    let kept =
      evict_loop-spares quota (total - k.size_bytes) leases fp ks (erase k.name fs) leased free
        (erase-NodupKeys k.name fs u) in
    let differ : (fp == k.name) ≡ false = ground (arith, leased, unheld) in
    ground (arith, kept, differ, lookup-erase fp k.name fs u)

pub evict_loop-NodupKeys :
    (quota total : ℕ) (ks : List Candidate) (fs : Dict String Folder)
    → NodupKeys fs
    → NodupKeys (evict_loop quota total ks fs)
unfolding evict_loop
evict_loop-NodupKeys quota total [] fs u = u
evict_loop-NodupKeys quota total (k ∷ ks) fs u = if_either NodupKeys (leb total quota) u (
    evict_loop-NodupKeys quota (total - k.size_bytes) ks (erase k.name fs)
      (erase-NodupKeys k.name fs u))

-- Directories may change where nothing is held.
pub other_folders :
    (c : EnvironmentCache) (held : List String) (fs : Dict String Folder)
    → Holds c held
    → NodupKeys fs
    → ((fp : String)
        → is_some (lookup fp c.leases) ≡ true
        → marker_at fp fs ≡ marker_at fp c.folders)
    → Holds (record c { folders = fs }) held
other_folders c held fs h once same = record {
  leases_once = h.leases_once;
  folders_once = once;
  counted = h.counted;
  on_disk = λ fp some_held.
      let leased : is_some (lookup fp c.leases) ≡ true =
        ap is_some (h.counted fp ∙ lease_of_pos (count fp held) some_held) in
      ground (arith, same fp leased, h.on_disk fp some_held);
}

pub evict_to_quota-Holds :
    (c : EnvironmentCache) (held : List String) → Holds c held → Holds (evict_to_quota c) held
unfolding evict_to_quota candidates marker_at
evict_to_quota-Holds c held h =
    let free =
      sort_by-All used_before (λ k. is_some (lookup k.name c.leases) ≡ false)
        (unleased c.leases c.folders) (unleased-names c.leases c.folders) in
    let total = total_bytes c.folders in
    if_either (λ c'. Holds c' held) (eqb c.quota_bytes 0 || leb total c.quota_bytes) h
      (other_folders c held (evict_loop c.quota_bytes total (candidates c) c.folders) h
        (evict_loop-NodupKeys c.quota_bytes total (candidates c) c.folders h.folders_once)
        (λ fp leased.
          ap (λ o. elim o [ none ↦ none | some d ↦ d.marker ])
            (evict_loop-spares c.quota_bytes total c.leases fp (candidates c) c.folders leased free
              h.folders_once)))
