-- ===== src/Releases/Rollout.antt =====
-- Who is offered a release, and what the version map counts.
use looma.Base.Filter.{count_if}
use looma.Base.{
  if◌then◌else◌, ◌==◌, ok, string_eq, nat_eq, length, sum_by, ℕ, ◌+◌, String, ◌≡◌, refl, ◌∙◌, ◌≢◌,
  ◌↔◌, true, none, some, List, [], ◌∷◌, arith,
}
use looma.Base.Dict.{lookup-nil, lookup-insert, Dict, lookup, insert, values}
use looma.Releases.{
  target_of, version_map, clamp_percent, ReleaseStore, ℤ, archive_bytes, withdraw, version_of,
  set_wave, offer_to, Node, publish, or_zero, in_wave, count_versions, Release,
}

publish_lem :
    (digest : List ℕ → String) (version : String) (signature archive : List ℕ) (now : ℕ)
    (store : ReleaseStore) (release : Release) (published : ReleaseStore)
    → publish digest version signature archive now store ≡ ok (release, published)
    → (published
        ≡ record { current = some release; archives = insert version archive store.archives })
      × (release.wave_percent ≡ 0)
unfolding publish
publish_lem digest version signature archive now store release published e = ground (arith, e)

module _ (bucket : String → ℕ) where
  -- A new release is offered to nobody, whoever was in the last wave; after `set_wave` it is
  -- offered to exactly the nodes of that wave; after `withdraw` to nobody again.
  pub rollout :
      (digest : List ℕ → String) (version : String) (signature archive : List ℕ) (now : ℕ)
      (percent : ℤ) (node_id : String) (store : ReleaseStore) (release : Release)
      (published : ReleaseStore)
      → publish digest version signature archive now store ≡ ok (release, published)
      → (offer_to bucket node_id published ≡ none)
        × ((advanced : Release) × (rolled : ReleaseStore) × (set_wave percent published
              ≡ ok (advanced, rolled))
            × (advanced ≡ record release { wave_percent = clamp_percent percent })
            × ((offer_to bucket node_id rolled ≢ none) ↔ (
                (clamp_percent percent ≢ 0)
                × (in_wave bucket node_id (clamp_percent percent) ≡ true)))
            × (offer_to bucket node_id (withdraw rolled) ≡ none)
            × (archive_bytes version (withdraw rolled) ≡ some archive))
  unfolding publish offer_to set_wave withdraw archive_bytes
  rollout digest version signature archive now percent node_id store release published e =
      let (kept, start) =
        publish_lem digest version signature archive now store release published e in
      rw kept (
        ground (arith, start),
        (
          record release { wave_percent = clamp_percent percent },
          record {
            current = some (record release { wave_percent = clamp_percent percent });
            archives = insert version archive store.archives;
          },
          refl,
          refl,
          (
            λ offered. (ground (arith, offered), ground (arith, offered)),
            λ w. ground (arith, w.0, w.1),
          ),
          refl,
          lookup-insert version version archive store.archives ∙ ground arith,
        ),
      )

  add_one :
      (k : String) (d : Dict String ℕ)
      → sum_by (λ n. n) (values (insert k (or_zero (lookup k d) + 1) d))
        ≡ sum_by (λ n. n) (values d) + 1
  unfolding insert lookup
  add_one k [] = omega arith
  add_one k ((j, n) ∷ d) = ground (arith, add_one k d)

  sum-count_versions :
      (counts : Dict String ℕ) (nodes : List (Node))
      → sum_by (λ n. n) (values (count_versions counts nodes))
        ≡ sum_by (λ n. n) (values counts) + length nodes
  unfolding count_versions
  sum-count_versions counts [] = omega arith
  sum-count_versions counts (node ∷ nodes) = omega (
    arith,
    sum-count_versions
        (insert (version_of node) (or_zero (lookup (version_of node) counts) + 1) counts) nodes,
    add_one (version_of node) counts,
  )

  lookup-count_versions :
      (k : String) (counts : Dict String ℕ) (nodes : List Node)
      → or_zero (lookup k (count_versions counts nodes))
        ≡ or_zero (lookup k counts) + count_if (λ n. version_of n == k) nodes
  unfolding count_versions count_if
  lookup-count_versions k counts [] = omega arith
  lookup-count_versions k counts (node ∷ nodes) =
      let v = version_of node in
      ground (
        arith,
        lookup-count_versions k (insert v (or_zero (lookup v counts) + 1) counts) nodes,
        lookup-insert k v (or_zero (lookup v counts) + 1) counts,
      )

  -- The versions of the map count every node once, each under its version; the nodes on target are
  -- those that report the version of the current release, and none if that has no name.
  pub version_map-counts :
      (nodes : List Node) (store : ReleaseStore) (version : String)
      → let m = version_map bucket nodes store in
        (sum_by (λ n. n) (values m.versions) ≡ m.nodes_total)
        × (or_zero (lookup version m.versions) ≡ count_if (λ n. version_of n == version) nodes)
        × (m.nodes_on_target ≡ (
            if target_of bucket store.current == ""
            then 0
            else count_if (λ n. version_of n == target_of bucket store.current) nodes))
  unfolding version_map
  version_map-counts nodes store version = (
    omega (arith, sum-count_versions [] nodes),
    lookup-count_versions version [] nodes ∙ rw lookup-nil (omega arith),
    ground (
      arith,
      lookup-count_versions (target_of bucket store.current) [] nodes,
      lookup-nil {V = ℕ} (target_of bucket store.current),
    ),
  )
