-- ===== src/Launcher/Tests.antt =====
-- An update that fails, and two updates at once.
use looma.Base.{string_eq, nat_eq, String, ◌≡◌, refl, true, false, some, List, [], ◌∷◌}
use looma.Launcher.{
  roll_back, consider_rollback, after_run, switch_to, install, apply_downloaded, turn, mark, fresh,
  Run, Manifest, Launcher, accepted,
}
use looma.Launcher.Rollback.{turns}

abbrev works : Run
works = record { registered = true; for_update = true; lived = 90_000 }

abbrev crash : Run
crash = record { registered = false; for_update = false; lived = 900 }

abbrev release : String → Manifest
release version = record { version = version; check = accepted }

-- One release works, the next one never comes up.
abbrev days : List (List Manifest × Run)
days = ([], works) ∷ (release "1" ∷ [], works) ∷ (release "2" ∷ [], crash) ∷ ([], crash) ∷ []

node : Launcher
unfolding turns turn apply_downloaded install switch_to mark after_run consider_rollback roll_back
    string_eq
node = turns days fresh

tries_it_again : node.payload ≡ some "2"
unfolding node
tries_it_again = refl

gives_up : (turn [] crash node).payload ≡ some "1"
unfolding node
gives_up = refl

remembers : (turn [] crash node).refused ≡ "2" ∷ []
unfolding node
remembers = refl

-- Two releases that were downloaded at once and never come up: the first of them is taken for the
-- version to go back to, and from there every rollback leads to it again.
abbrev crashes : List (List Manifest × Run)
crashes = ([], crash) ∷ ([], crash) ∷ ([], crash) ∷ []

stuck :
    let start = turns (([], works) ∷ (release "1" ∷ [], works) ∷ []) fresh in
    let l = turns crashes (apply_downloaded (release "2" ∷ release "3" ∷ []) start) in
    (l.payload ≡ some "2")
    × ((turns crashes l).payload ≡ some "2")
    × ((turns crashes (turns crashes l)).payload ≡ some "2")
unfolding node
stuck = (refl, refl, refl)
