-- ===== src/EnvCache/Evicting.antt =====
-- The loop of `_evict_to_quota` of agent/looma_agent/tasks/env/cache.py over candidates whose names
-- differ.
use mathlib.Core.Path.{subst}
use looma.Base.{
  All-both, leb, if◌then◌else◌, leb→le, Bool-cases, if_either, string_eq, nat_eq, All, All-map_pred,
  ℕ, ◌+◌, ◌-◌, ◌≤◌, String, ◌≡◌, sym, ap, ◌≢◌, ◌⊎◌, inl, inr, true, none, some, List, [], ◌∷◌,
  arith,
}
use looma.Base.Dict.{
  Dict, lookup, erase, NodupKeys, lookup-erase, lookup-erase_self, erase-NodupKeys,
}
use looma.EnvCache.{Folder, Candidate, total_bytes, marked_size, evict_loop, is_counted}
use looma.EnvCache.Apart.{Apart}

-- The candidate is a directory that counts.
abbrev pub Stands : Dict String Folder → Candidate → Type 0
Stands fs k =
    (d : Folder) × (lookup k.name fs ≡ some d)
    × (is_counted k.name d ≡ true)
    × (marked_size d.marker ≡ k.size_bytes)

abbrev pub Differ : Candidate → Candidate → Type 0
Differ j k = j.name ≢ k.name

total_bytes-erase :
    (name : String) (d : Folder) (fs : Dict String Folder)
    → lookup name fs ≡ some d
    → is_counted name d ≡ true
    → marked_size d.marker + total_bytes (erase name fs) ≡ total_bytes fs
unfolding total_bytes lookup erase
total_bytes-erase name d [] at counted = cc
total_bytes-erase name d ((n, x) ∷ fs) at counted =
    ground (arith, at, counted, total_bytes-erase name d fs)

Stands-erase :
    (name : String) (k : Candidate) (fs : Dict String Folder)
    → NodupKeys fs
    → name ≢ k.name
    → Stands fs k
    → Stands (erase name fs) k
Stands-erase name k fs u differ (d, at, counted, size) =
    (d, ground (arith, differ, at, lookup-erase k.name name fs u), counted, size)

evict_loop-none :
    (quota total : ℕ) (ks : List Candidate) (fs : Dict String Folder) (name : String)
    → NodupKeys fs
    → lookup name fs ≡ none
    → lookup name (evict_loop quota total ks fs) ≡ none
unfolding evict_loop
evict_loop-none quota total [] fs name u gone = gone
evict_loop-none quota total (k ∷ ks) fs name u gone =
    let later =
      evict_loop-none quota (total - k.size_bytes) ks (erase k.name fs) name
        (erase-NodupKeys k.name fs u) (ground (arith, gone, lookup-erase name k.name fs u)) in
    if_either (λ (g : Dict String Folder). lookup name g ≡ none) (leb total quota) gone later

-- What is kept below the quota is fine; otherwise every candidate goes.
abbrev Fits : ℕ → List Candidate → Dict String Folder → Type 0
Fits quota ks fs = (total_bytes fs ≤ quota) ⊎ All (λ k. lookup k.name fs ≡ none) ks

all_gone :
    (quota : ℕ) (ks : List Candidate) (k : Candidate) (fs : Dict String Folder)
    → lookup k.name fs ≡ none
    → Fits quota ks fs
    → Fits quota (k ∷ ks) fs
all_gone quota ks k fs gone (inl fits) = inl fits
all_gone quota ks k fs gone (inr others) = inr (gone, others)

pub evict_loop-Fits :
    (quota total : ℕ) (ks : List Candidate) (fs : Dict String Folder)
    → total ≡ total_bytes fs
    → NodupKeys fs
    → Apart Differ ks
    → All (Stands fs) ks
    → Fits quota ks (evict_loop quota total ks fs)
unfolding evict_loop
evict_loop-Fits quota total [] fs same u apart stand = inr tt
evict_loop-Fits quota total (k ∷ ks) fs same u (others, apart) ((d, at, counted, size), stand) =
    let u' = erase-NodupKeys k.name fs u in
    let rest =
      evict_loop-Fits quota (total - k.size_bytes) ks (erase k.name fs)
        (ground (arith, same, size, total_bytes-erase k.name d fs at counted)) u' apart
        (All-map_pred _ (Stands (erase k.name fs))
          (λ j both. Stands-erase k.name j fs u both.0 both.1) ks
          (All-both (Differ k) (Stands fs) ks others stand)) in
    let later = evict_loop quota (total - k.size_bytes) ks (erase k.name fs) in
    let gone =
      evict_loop-none quota (total - k.size_bytes) ks (erase k.name fs) k.name u'
        (lookup-erase_self k.name fs u) in
    elim (Bool-cases (leb total quota)) [
      | inl enough ↦
          let fits : total_bytes fs ≤ quota = ground (arith, leb→le _ _ enough, same) in
          subst (Fits quota (k ∷ ks)) (sym (ap (λ b. if b then fs else later) enough)) (inl fits)
      | inr more ↦
          subst (Fits quota (k ∷ ks)) (sym (ap (λ b. if b then fs else later) more))
            (all_gone quota ks k later gone rest)
    ]
