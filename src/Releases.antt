-- ===== src/Releases.antt =====
-- What version the agents should run, src/looma/orchestrator/releases.py.
-- The digest of an archive and the bucket of a node, `int(sha256(name)[:4]) % 100`, come from
-- hashlib and are parameters; archives on disk are a dict by version, and `strip` is given the text
-- that it leaves. The clock's reading is an argument of `publish`.
pub mod Rollout
mod Tests
use looma.Base.Filter.{count_if}
use looma.Base.{
  or_zero, ltb, leb, eqb, if◌then◌else◌, Result, ok, err, ◌==◌, string_eq, nat_eq, length, is_nil,
  ℕ, ◌+◌, min, String, Bool, true, false, ◌||◌, Option, none, some, List, [], ◌∷◌,
}
use looma.Base.Dict.{lookup, insert, Dict}
use looma.Base.Int.{pos_part, ℤ}

pub data ReleaseError : Type 0 where
  no_version no_signature empty_archive nothing_published : ReleaseError

pub record Release : Type 0 where
  pub version : String
  pub sha256 : String
  pub signature : List ℕ
  pub published_at : ℕ
  pub wave_percent : ℕ

pub record ReleaseStore : Type 0 where
  pub current : Option Release
  pub archives : Dict String (List ℕ)

abbrev pub empty_store : ReleaseStore
empty_store = record { current = none; archives = [] }

module _ (digest : List ℕ → String) where
  -- `publish`, for a version without spaces around it.
  pub publish :
      String → List ℕ → List ℕ → ℕ → ReleaseStore → Result ReleaseError (Release × ReleaseStore)
  publish version signature archive now store =
      if version == ""
      then err no_version
      else if is_nil signature
      then err no_signature
      else if is_nil archive
      then err empty_archive
      else (let release : Release = record {
        version = version;
        sha256 = digest archive;
        signature = signature;
        published_at = now;
        wave_percent = 0;
      } in
          ok (
            release,
            record { current = some release; archives = insert version archive store.archives },
          ))

-- `max(0, min(100, percent))`
abbrev pub clamp_percent : ℤ → ℕ
clamp_percent percent = min 100 (pos_part percent)

-- `set_wave`
pub set_wave : ℤ → ReleaseStore → Result ReleaseError (Release × ReleaseStore)
set_wave percent store = elim store.current [
  | none ↦ err nothing_published
  | some release ↦
      let advanced = record release { wave_percent = clamp_percent percent } in
      ok (advanced, record store { current = some advanced })
]

-- `withdraw`
pub withdraw : ReleaseStore → ReleaseStore
withdraw store = elim store.current [
  | none ↦ store
  | some release ↦ record store { current = some (record release { wave_percent = 0 }) }
]

-- A node as `version_map` reads it.
pub record Node : Type 0 where
  pub node_id : String
  pub agent_version : String

abbrev pub version_of : Node → String
version_of node = if node.agent_version == "" then "unknown" else node.agent_version

-- The loop of `version_map` over the nodes.
pub count_versions : Dict String ℕ → List Node → Dict String ℕ
count_versions counts [] = counts
count_versions counts (node ∷ nodes) =
    count_versions (insert (version_of node) (or_zero (lookup (version_of node) counts) + 1) counts)
      nodes

pub record VersionMap : Type 0 where
  pub release : Option Release
  pub versions : Dict String ℕ
  pub nodes_total : ℕ
  pub nodes_on_target : ℕ
  pub nodes_in_wave : ℕ

module _ (bucket : String → ℕ) where
  -- `in_wave`
  pub in_wave : String → ℕ → Bool
  in_wave node_id percent =
      if leb 100 percent
      then true
      else if eqb percent 0 || node_id == ""
      then false
      else ltb (bucket node_id) percent

  abbrev pub offer : String → Release → Option Release
  offer node_id release =
      if eqb release.wave_percent 0
      then none
      else if in_wave node_id release.wave_percent
      then some release
      else none

  -- `offer_to`
  pub offer_to : String → ReleaseStore → Option Release
  unfolding in_wave
  offer_to node_id store = elim store.current [ none ↦ none | some release ↦ offer node_id release ]

  abbrev pub wave_of : Option Release → Node → Bool
  wave_of none node = false
  wave_of (some release) node = in_wave node.node_id release.wave_percent

  abbrev pub target_of : Option Release → String
  target_of none = ""
  target_of (some release) = release.version

  -- `version_map`
  pub version_map : List Node → ReleaseStore → VersionMap
  unfolding count_versions in_wave
  version_map nodes store =
      let counts = count_versions [] nodes in
      let target = target_of store.current in
      record {
        release = store.current;
        versions = counts;
        nodes_total = length nodes;
        nodes_on_target = if target == "" then 0 else or_zero (lookup target counts);
        nodes_in_wave = count_if (wave_of store.current) nodes;
      }

-- `archive_bytes`
pub archive_bytes : String → ReleaseStore → Option (List ℕ)
archive_bytes version store = lookup version store.archives
