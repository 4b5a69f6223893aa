-- ===== src/EnvCache/Holding.antt =====
-- Who holds an environment, agent/looma_agent/tasks/env/cache.py: leases count the tasks that were
-- given it, and it stays on the disk for them.
use mathlib.Core.Path.{subst}
use looma.Base.{
  ltb→lt, contains, not, ok, err, Result, sym, ◌∙◌, ap, ltb, inr, Bool-cases, inl, ◌≢◌,
  Option-cases, if◌then◌else◌, is_some, if_either, ◌==◌, string_eq, nat_eq, ℕ, zero, suc, ◌<◌,
  String, ◌≡◌, refl, true, none, some, List, [], ◌∷◌, arith,
}
use looma.Base.Dict.{insert-NodupKeys, lookup, insert}
use looma.EnvCache.{
  kinds, acquire, marker_for, environment, rename_failed, built_folder, Built, move_in, Environment,
  EnvError, touch, provisioned, build, touched, release, lease, EnvironmentCache, marker_at, ready,
}
use looma.EnvCache.Spared.{
  lease_of, count, without_one, marker_at-insert, other_folders, evict_to_quota-Holds, Holds,
}
use looma.EnvCache.Leasing.{lease-Holds, release-Holds, touched-marker_at, touched-NodupKeys}

-- What a caller holds after `acquire`; the environment of a task that needs none is not leased.
abbrev given : Result EnvError Environment → List String → List String
given (err e) held = held
given (ok e) held = if e.fingerprint == "none" then held else e.fingerprint ∷ held

hit-Holds :
    (fp : String) (now : ℕ) (c : EnvironmentCache) (held : List String)
    → is_some (marker_at fp c.folders) ≡ true
    → Holds c held
    → Holds (touch fp now (lease fp c)) (fp ∷ held)
unfolding lease
hit-Holds fp now c held there h =
    other_folders (lease fp c) (fp ∷ held) (touched fp now c.folders)
      (lease-Holds fp c held there h) (touched-NodupKeys fp now c.folders h.folders_once)
      (λ j leased. touched-marker_at j fp now c.folders)

provisioned-Holds :
    (fp : String) (c : EnvironmentCache) (e : Environment) (held : List String)
    → is_some (marker_at fp c.folders) ≡ true
    → Holds c held
    → Holds (provisioned fp (c, ok e)).0 (fp ∷ held)
unfolding provisioned
provisioned-Holds fp c e held there h =
    evict_to_quota-Holds (lease fp c) (fp ∷ held) (lease-Holds fp c held there h)

-- A build adds a directory of the name, or changes nothing.
pub data Builds (kind fp : String) (now : ℕ) (c : EnvironmentCache)
    : EnvironmentCache × Result EnvError Environment → Type 0 where
  fails : (e : EnvError) → Builds kind fp now c (c, err e)
  adds :
      (b : Built)
      → marker_at fp c.folders ≡ none
      → Builds kind fp now c (
        record c { folders = insert fp (built_folder kind b now) c.folders },
        ok (environment fp (marker_for kind b)),
      )

unmarked : (fp : String) (c : EnvironmentCache) → ready fp c ≡ none → marker_at fp c.folders ≡ none
unfolding ready
unmarked fp c = elim (Option-cases (marker_at fp c.folders)) [
  | inl away ↦ λ _. away
  | inr (m, here) ↦ rw (here, ready) λ e. cc
]

build-Builds :
    (kind fp : String) (made : Result EnvError Built) (now : ℕ) (c : EnvironmentCache)
    → ready fp c ≡ none
    → Builds kind fp now c (build kind fp made now c)
unfolding build move_in
build-Builds kind fp (err e) now c absent = fails e
build-Builds kind fp (ok b) now c absent = elim (Option-cases (lookup fp c.folders)) [
  | inl free ↦ rw (free, move_in) (adds b (unmarked fp c absent))
  | inr (d, at) ↦ elim (Bool-cases d.holds_files) [
    | inl full ↦ rw (at, move_in, absent, full) (fails rename_failed)
    | inr vacant ↦ rw (at, move_in, absent, vacant) (adds b (unmarked fp c absent))
  ]
]

lease_of_some : (n : ℕ) → is_some (lease_of n) ≡ true → 0 < n
lease_of_some zero h = cc
lease_of_some (suc n) h = omega arith

pub leased-on_disk :
    (fp : String) (c : EnvironmentCache) (held : List String)
    → Holds c held
    → is_some (lookup fp c.leases) ≡ true
    → is_some (marker_at fp c.folders) ≡ true
leased-on_disk fp c held h leased =
    h.on_disk fp (lease_of_some (count fp held) (ap is_some (sym (h.counted fp)) ∙ leased))

given_new :
    (e : Environment) (fp : String) (held : List String)
    → e.fingerprint ≡ fp
    → fp ≢ "none"
    → given (ok e) held ≡ fp ∷ held
given_new e fp held same named = ground (arith, same, named)

built-Holds :
    (kind fp : String) (now : ℕ) (c : EnvironmentCache) (held : List String)
    {r : EnvironmentCache × Result EnvError Environment}
    → fp ≢ "none"
    → Holds c held
    → Builds kind fp now c r
    → Holds (provisioned fp r).0 (given (provisioned fp r).1 held)
unfolding provisioned
built-Holds kind fp now c held named h (fails e) = h
built-Holds kind fp now c held named h (adds b free) =
    let fs = insert fp (built_folder kind b now) c.folders in
    let e = environment fp (marker_for kind b) in
    let there = marker_at-insert fp fp (built_folder kind b now) c.folders in
    let more : Holds (record c { folders = fs }) held =
      other_folders c held fs h (insert-NodupKeys fp _ c.folders h.folders_once) (λ j leased.
        let put = marker_at-insert j fp (built_folder kind b now) c.folders in
        elim (string_eq.dec j fp) [
          | yes same ↦ absurd (ground (arith, same, free, leased-on_disk j c held h leased))
          | no differ ↦ ground (arith, put, differ)
        ]) in
    subst (Holds _) (sym (given_new e fp held refl named))
      (provisioned-Holds fp (record c { folders = fs }) e held (ground (arith, there)) more)

ready_at :
    (fp : String) (c : EnvironmentCache) (e : Environment)
    → ready fp c ≡ some e
    → (e.fingerprint ≡ fp) × (is_some (marker_at fp c.folders) ≡ true)
unfolding ready
ready_at fp c e = elim (Option-cases (marker_at fp c.folders)) [
  | inl absent ↦ rw absent λ at. cc
  | inr (m, here) ↦ rw here λ at. (ground (arith, at), ground (arith, here))
]

abbrev HoldsGiven : List String → EnvironmentCache × Result EnvError Environment → Type 0
HoldsGiven held r = Holds r.0 (given r.1 held)

acquire-Holds :
    (kind fp : String) (made : Result EnvError Built) (now : ℕ) (c : EnvironmentCache)
    (held : List String)
    → fp ≢ "none"
    → Holds c held
    → HoldsGiven held (acquire kind fp made now c)
unfolding acquire string_eq
acquire-Holds kind fp made now c held named h = if_either (HoldsGiven held) (kind == "none") h (
    if_either (HoldsGiven held) (not (c.unusable == "")) h (
      if_either (HoldsGiven held) (not (contains kinds kind)) h (elim (Option-cases (ready fp c)) [
        | inl absent ↦
            rw absent
              (built-Holds kind fp now c held named h (build-Builds kind fp made now c absent))
        | inr (e, at) ↦ rw at (
            let (same, there) = ready_at fp c e at in
            subst (Holds _) (sym (given_new e fp held same named))
              (hit-Holds fp now c held there h))
      ])))

-- What tasks do with the environments: one is asked for, with what its builder makes, or given back.
pub data Event : Type 0 where
  acquires : (kind fp : String) → Result EnvError Built → (now : ℕ) → Event
  releases : (fp : String) → Event

-- A key is never one of the words for no environment.
abbrev pub AreNamed : List Event → Type 0
AreNamed [] = Unit
AreNamed (acquires kind fp made now ∷ events) = (fp ≢ "" × fp ≢ "none") × AreNamed events
AreNamed (releases fp ∷ events) = (fp ≢ "" × fp ≢ "none") × AreNamed events

-- The environments that tasks have; only what is held is given back.
unfoldable pub handle_all :
    List Event → EnvironmentCache × List String → EnvironmentCache × List String
handle_all [] s = s
handle_all (acquires kind fp made now ∷ events) (c, held) =
    let r = acquire kind fp made now c in handle_all events (r.0, given r.1 held)
handle_all (releases fp ∷ events) (c, held) =
    handle_all events
      (if ltb 0 (count fp held) then (release fp c, without_one fp held) else (c, held))

-- Whatever tasks ask for and give back, each call as one step, in whatever order and whatever the
-- builders make: an environment is leased exactly as often as tasks hold it, and as long as one of
-- them does it stays on the disk with its marker, however little the quota allows. The keys are not
-- the words for no environment.
pub handle_all-Holds :
    (events : List Event) (s : EnvironmentCache × List String)
    → AreNamed events
    → Holds s.0 s.1
    → Holds (handle_all events s).0 (handle_all events s).1
unfolding handle_all
handle_all-Holds [] s named h = h
handle_all-Holds (acquires kind fp made now ∷ events) (c, held) ((_, other), named) h =
    let r = acquire kind fp made now c in
    handle_all-Holds events (r.0, given r.1 held) named
      (acquire-Holds kind fp made now c held other h)
handle_all-Holds (releases fp ∷ events) (c, held) ((full, other), named) h =
    elim (Bool-cases (ltb 0 (count fp held))) [
      | inl here ↦
          rw (here, handle_all)
            (handle_all-Holds events (release fp c, without_one fp held) named
              (release-Holds fp c held full other (ltb→lt _ _ here) h))
      | inr unheld ↦ rw (unheld, handle_all) (handle_all-Holds events (c, held) named h)
    ]
