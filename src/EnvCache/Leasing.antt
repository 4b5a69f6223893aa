-- ===== src/EnvCache/Leasing.antt =====
-- What a lease, its return and a touch do to what is held, agent/looma_agent/tasks/env/cache.py.
use looma.Base.{
  sym, ◌∙◌, ap, ltb, inr, Bool-cases, ◌||◌, inl, ◌≢◌, Option-cases, or_zero, if◌then◌else◌, is_some,
  if_either, ◌==◌, string_eq, nat_eq, ℕ, ◌+◌, ◌-◌, ◌<◌, String, ◌≡◌, refl, true, false, none, some,
  List, ◌∷◌, arith,
}
use looma.Base.Dict.{
  insert-NodupKeys, Dict, lookup, NodupKeys, lookup-insert, lookup-erase, erase-NodupKeys,
}
use looma.EnvCache.{touched, release, lease, EnvironmentCache, Folder, marker_at}
use looma.EnvCache.Spared.{
  lease_of, or_zero-lease_of, lease_of_pos, count, without_one, count-without_one, marker_at-insert,
  marker_at-some, Holds,
}

pub lease-Holds :
    (fp : String) (c : EnvironmentCache) (held : List String)
    → is_some (marker_at fp c.folders) ≡ true
    → Holds c held
    → Holds (lease fp c) (fp ∷ held)
unfolding lease count
lease-Holds fp c held there h = record {
  leases_once = insert-NodupKeys fp _ c.leases h.leases_once;
  folders_once = h.folders_once;
  counted = λ j. ground (
    arith,
    lookup-insert j fp (or_zero (lookup fp c.leases) + 1) c.leases,
    h.counted j,
    h.counted fp,
  );
  on_disk = λ j some_held. ground (arith, there, some_held, h.on_disk j);
}

fewer :
    (j fp : String) (held : List String)
    → 0 < count fp held
    → 0 < count j (without_one fp held)
    → 0 < count j held
fewer j fp held here some_held = ground (arith, some_held, count-without_one j fp held here)

count_after :
    (j fp : String) (c : EnvironmentCache) (held : List String)
    → Holds c held
    → 0 < count fp held
    → lease_of (count j (without_one fp held))
      ≡ (if j == fp then lease_of (count fp held - 1) else lookup j c.leases)
count_after j fp c held h here = elim (string_eq.dec j fp) [
  | yes same ↦ ap lease_of (count-without_one j fp held here) ∙ ground (arith, same)
  | no differ ↦ ap lease_of (count-without_one j fp held here) ∙ ground (arith, differ, h.counted j)
]

pub release-Holds :
    (fp : String) (c : EnvironmentCache) (held : List String)
    → fp ≢ ""
    → fp ≢ "none"
    → 0 < count fp held
    → Holds c held
    → Holds (release fp c) (without_one fp held)
unfolding release
release-Holds fp c held named other here h =
    let plain : (fp == "" || fp == "none") ≡ false = ground (arith, named, other) in
    let n = count fp held in
    let times : or_zero (lookup fp c.leases) ≡ n = ap or_zero (h.counted fp) ∙ or_zero-lease_of n in
    elim (Bool-cases (ltb 1 (or_zero (lookup fp c.leases)))) [
      | inl more ↦
          rw (plain, more, release)
            (record {
              leases_once = insert-NodupKeys fp _ c.leases h.leases_once;
              folders_once = h.folders_once;
              counted = λ j.
                  let left : some (or_zero (lookup fp c.leases) - 1) ≡ lease_of (n - 1) =
                    ap (λ k. some (k - 1)) times
                    ∙ sym (lease_of_pos (n - 1) (ground (arith, more, times))) in
                  ground (
                    arith,
                    left,
                    count_after j fp c held h here,
                    lookup-insert j fp (or_zero (lookup fp c.leases) - 1) c.leases,
                  );
              on_disk = λ j some_held. h.on_disk j (fewer j fp held here some_held);
            })
      | inr last ↦
          rw (plain, last, release)
            (record {
              leases_once = erase-NodupKeys fp c.leases h.leases_once;
              folders_once = h.folders_once;
              counted = λ j.
                  let nought : n - 1 ≡ 0 = ground (arith, last, times, here) in
                  let gone : lease_of (n - 1) ≡ none = ap lease_of nought in
                  ground (
                    arith,
                    gone,
                    count_after j fp c held h here,
                    lookup-erase j fp c.leases h.leases_once,
                  );
              on_disk = λ j some_held. h.on_disk j (fewer j fp held here some_held);
            })
    ]

pub touched-marker_at :
    (j fp : String) (now : ℕ) (fs : Dict String Folder)
    → marker_at j (touched fp now fs) ≡ marker_at j fs
unfolding touched
touched-marker_at j fp now fs = elim (Option-cases (lookup fp fs)) [
  | inl gone ↦ rw (gone, touched) refl
  | inr (d, at) ↦
      rw (at, touched)
        (if_either (λ g. marker_at j g ≡ marker_at j fs) (is_some d.marker)
          (let put = marker_at-insert j fp (record d { used_at = now }) fs in
            elim (string_eq.dec j fp) [
              | yes same ↦ ground (arith, put, same, marker_at-some fp d fs at)
              | no differ ↦ ground (arith, put, differ)
            ])
          refl)
]

pub touched-NodupKeys :
    (fp : String) (now : ℕ) (fs : Dict String Folder) → NodupKeys fs → NodupKeys (touched fp now fs)
unfolding touched
touched-NodupKeys fp now fs u = elim (Option-cases (lookup fp fs)) [
  | inl gone ↦ rw (gone, touched) u
  | inr (d, at) ↦
      rw (at, touched) (if_either NodupKeys (is_some d.marker) (insert-NodupKeys fp _ fs u) u)
]
