-- ===== src/Releases/Tests.antt =====
-- A release published, rolled out and withdrawn, and the theorems there.
use looma.Base.Int.{pos}
use looma.Base.Dict.{lookup, insert}
use looma.Base.{
  eqb, if◌then◌else◌, ok, err, ◌==◌, string_eq, nat_eq, length, ℕ, String, ◌≡◌, refl, ◌≢◌, ◌↔◌,
  true, none, some, List, [], ◌∷◌,
}
use looma.Releases.{
  archive_bytes, withdraw, nothing_published, no_signature, version_map, set_wave, publish,
  offer_to, in_wave, ReleaseStore, Node, Release,
}
use looma.Releases.Rollout.{rollout}

abbrev digest : List ℕ → String
digest archive = if eqb (length archive) 3 then "three" else "other"

abbrev bucket : String → ℕ
bucket id = if id == "a" then 5 else 50

abbrev store : ReleaseStore
store = record { current = none; archives = ("1.0", 9 ∷ []) ∷ [] }

abbrev archive : List ℕ
archive = 1 ∷ 2 ∷ 3 ∷ []

abbrev release : Release
release = record {
  version = "1.1";
  sha256 = "three";
  signature = 7 ∷ [];
  published_at = 60;
  wave_percent = 0;
}

abbrev published : ReleaseStore
published = record { current = some release; archives = ("1.0", 9 ∷ []) ∷ ("1.1", archive) ∷ [] }

publishes : publish digest "1.1" (7 ∷ []) archive 60 store ≡ ok (release, published)
unfolding publish string_eq insert
publishes = refl

unsigned : publish digest "1.1" [] archive 60 store ≡ err no_signature
unfolding publish string_eq
unsigned = refl

no_wave : set_wave (pos 10) store ≡ err nothing_published
unfolding set_wave
no_wave = refl

abbrev nodes : List Node
nodes =
    record { node_id = "a"; agent_version = "1.1" }
    ∷ record { node_id = "b"; agent_version = "" }
    ∷ record { node_id = "c"; agent_version = "1.0" }
    ∷ []

counts :
    (version_map bucket nodes published).versions ≡ ("1.1", 1) ∷ ("unknown", 1) ∷ ("1.0", 1) ∷ []
unfolding version_map string_eq insert lookup
counts = refl

rollout_example :
    (offer_to bucket "a" published ≡ none)
    × ((advanced : Release) × (rolled : ReleaseStore) × (set_wave (pos 10) published
          ≡ ok (advanced, rolled))
        × (advanced ≡ record release { wave_percent = 10 })
        × ((offer_to bucket "a" rolled ≢ none)
            ↔ ((◌≢◌ {A = ℕ} 10 0) × (in_wave bucket "a" 10 ≡ true)))
        × (offer_to bucket "a" (withdraw rolled) ≡ none)
        × (archive_bytes "1.1" (withdraw rolled) ≡ some archive))
rollout_example =
    rollout bucket digest "1.1" (7 ∷ []) archive 60 (pos 10) "a" store release published publishes
