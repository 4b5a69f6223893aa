-- ===== src/EnvCache/Tests.antt =====
-- Runs of the cache of environments, and instances of its theorems.
use looma.Base.{true, ok, err, string_eq, nat_eq, ◌≡◌, refl, none, some, List, [], ◌∷◌, arith}
use looma.Base.Dict.{Dict, lookup, lookup-nil, NodupKeys}
use looma.EnvCache.{
  EnvironmentCache, EnvError, Environment, Folder, Built, built_folder, open_cache, acquire,
  release, lease, candidates, evict_loop, evict_to_quota, total_bytes, marker_at, rename_failed,
}
use looma.EnvCache.Holding.{Event, AreNamed, acquires, releases, handle_all, handle_all-Holds}
use looma.EnvCache.Spared.{Holds}
use looma.EnvCache.Quota.{evict_to_quota-Bounded, Bounded}

abbrev small : Built
small = record { size_bytes = 6; image_env = none; image_workdir = none }

abbrev empty_cache : EnvironmentCache
empty_cache = record { quota_bytes = 10; unusable = ""; leases = []; folders = [] }

abbrev full_cache : EnvironmentCache
full_cache = record empty_cache {
  folders = ("a", built_folder "python" small 1) ∷ ("b", built_folder "oci" small 2) ∷ [];
}

abbrev asked : List Event
asked =
    acquires "python" "a" (ok small) 1
    ∷ acquires "oci" "b" (ok small) 2
    ∷ releases "a"
    ∷ acquires "binary" "c" (ok small) 3
    ∷ []

-- The older one goes.
oldest_goes :
    evict_to_quota full_cache
    ≡ record full_cache { folders = ("b", built_folder "oci" small 2) ∷ [] }
unfolding evict_to_quota looma.Base.Sort.sort_by looma.Base.Texts.starts_with lookup
    looma.Base.Dict.erase string_eq
oldest_goes = refl

-- Between the list of candidates and their removal another task finds an environment ready and takes
-- a lease on it; the loop then removes what is in use.
abbrev leased_late : EnvironmentCache
leased_late = lease "a" full_cache

evicted_under_a_lease :
    (lookup "a" leased_late.leases ≡ some 1)
    × (marker_at "a" (evict_loop 10 12 (candidates full_cache) leased_late.folders) ≡ none)
unfolding evict_to_quota lookup lease looma.Base.Dict.insert string_eq marker_at
    looma.Base.Sort.sort_by looma.Base.Texts.starts_with looma.Base.Dict.erase
evicted_under_a_lease = (refl, refl)

-- A directory that lost its marker counts as absent, and no build can take its place.
abbrev unmarked : EnvironmentCache
unmarked = record empty_cache {
  folders = ("a", record { marker = none; holds_files = true; changed_at = 0; used_at = 0 }) ∷ [];
}

blocked : acquire "python" "a" (ok small) 5 unmarked ≡ (unmarked, err rename_failed)
unfolding acquire string_eq marker_at lookup
blocked = refl

empty-Holds : Holds empty_cache []
unfolding looma.EnvCache.Spared.count
empty-Holds = record {
  leases_once = tt;
  folders_once = tt;
  counted = λ fp. lookup-nil fp;
  on_disk = λ fp h. absurd (omega (arith, h));
}

asked-AreNamed : AreNamed asked
asked-AreNamed = (
  ((λ e. cc), λ e. cc),
  (((λ e. cc), λ e. cc), (((λ e. cc), λ e. cc), (((λ e. cc), λ e. cc), tt))),
)

handle_all-Holds_example :
    Holds (handle_all asked (empty_cache, [])).0 (handle_all asked (empty_cache, [])).1
handle_all-Holds_example = handle_all-Holds asked (empty_cache, []) asked-AreNamed empty-Holds

full_once : NodupKeys full_cache.folders
unfolding lookup string_eq
full_once = (refl, (refl, tt))

evict_to_quota-Bounded_example : Bounded full_cache (evict_to_quota full_cache).folders
evict_to_quota-Bounded_example = evict_to_quota-Bounded full_cache (omega arith) full_once
