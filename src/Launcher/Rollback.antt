-- ===== src/Launcher/Rollback.antt =====
-- Where a rollback leads.
use looma.Base.{
  contains, string_eq, nat_eq, ◌≤◌, String, ◌≡◌, ◌⊎◌, true, false, Option, none, some, List, [],
  ◌∷◌,
}
use looma.Launcher.{turn, Run, install, Manifest, Launcher, accepted}

-- The agent of the image, or a version that has registered once.
abbrev pub Trusted : Option String → List String → Type 0
Trusted none healthy = Unit
Trusted (some version) healthy = contains healthy version ≡ true

abbrev pub IsSafe : Launcher → Type 0
IsSafe l = (l.payload ≡ l.current) × Trusted l.previous l.healthy

-- A release is installed only while a version runs that has registered, or the agent of the image.
abbrev pub Careful : List Manifest → Launcher → Type 0
Careful [] l = Unit
Careful (m ∷ ms) l = (m.check ≡ accepted → Trusted l.payload l.healthy) × Careful ms (install m l)

unfoldable pub turns : List (List Manifest × Run) → Launcher → Launcher
turns [] l = l
turns ((pending, run) ∷ rest) l = turns rest (turn pending run l)

abbrev pub AllCareful : List (List Manifest × Run) → Launcher → Type 0
AllCareful [] l = Unit
AllCareful ((pending, run) ∷ rest) l = Careful pending l × AllCareful rest (turn pending run l)

-- What one look at the failures may do: nothing to what runs, or a rollback from a version that
-- never registered, which is then refused, to one that can be trusted.
abbrev pub Settles : Launcher → Launcher → Type 0
Settles l l' =
    (l'.payload ≡ l.payload)
    ⊎ ((version : String) × (l.payload ≡ some version)
        × (contains l.healthy version ≡ false)
        × (2 ≤ l.failures)
        × (contains l'.refused version ≡ true)
        × (l'.payload ≡ l.previous)
        × Trusted l'.payload l'.healthy)
