-- ===== src/Launcher.antt =====
-- The launcher that keeps the agent of a node running, installs its releases and takes them back,
-- agent/looma_launcher/supervise.py and payload.py.
-- A payload is the version of an installed agent, or nothing for the agent in the image. What the
-- check of a release says, and what a run of the agent did, are arguments; files and processes are
-- not modelled.
pub mod Rollback
mod Tests
use looma.Base.{
  ltb, if◌then◌else◌, ◌==◌, contains, string_eq, nat_eq, ℕ, ◌+◌, String, Bool, Option, none, some,
  List, [], ◌∷◌,
}

-- `Supervisor`, with the links `current` and `previous`, the health markers and the refusals.
pub record Launcher : Type 0 where
  pub payload : Option String
  pub failures : ℕ
  pub current : Option String
  pub previous : Option String
  pub healthy : List String
  pub refused : List String

abbrev pub failures_before_rollback : ℕ
failures_before_rollback = 3

-- In milliseconds.
abbrev pub too_soon : ℕ
too_soon = 30_000

-- What `install` finds of a release: it is installed, it is refused, or it cannot be read.
pub data Check : Type 0 where
  accepted untrusted broken : Check

pub record Manifest : Type 0 where
  pub version : String
  pub check : Check

abbrev pub replaced : Option String → String → Option String → Option String
replaced none version previous = previous
replaced (some was) version previous = if was == version then previous else some was

-- `switch_to`
pub switch_to : String → Launcher → Launcher
switch_to version l = record l {
  current = some version;
  previous = replaced l.current version l.previous;
}

-- `remember_refusal`
abbrev pub remember_refusal : String → Launcher → Launcher
remember_refusal version l = record l { refused = version ∷ l.refused }

-- `install`, and what `_apply_downloaded` does with its result.
pub install : Manifest → Launcher → Launcher
unfolding switch_to
install m l = elim m.check [
  | accepted ↦ record (switch_to m.version l) { payload = some m.version; failures = 0 }
  | untrusted ↦ remember_refusal m.version l
  | broken ↦ l
]

-- `_apply_downloaded`
pub apply_downloaded : List Manifest → Launcher → Launcher
unfolding install
apply_downloaded [] l = l
apply_downloaded (m ∷ ms) l = apply_downloaded ms (install m l)

-- `roll_back`, and what `_consider_rollback` does with its result.
pub roll_back : Launcher → Launcher
roll_back l = record l { payload = l.previous; current = l.previous; failures = 0 }

-- `_consider_rollback`
pub consider_rollback : Launcher → Launcher
unfolding roll_back
consider_rollback l = if ltb l.failures failures_before_rollback then l else (elim l.payload [
  | none ↦ l
  | some version ↦ if contains l.healthy version then l else roll_back (remember_refusal version l)
])

-- One run of the agent: whether it registered, whether it made way for an update, how long it
-- lived.
pub record Run : Type 0 where
  pub registered : Bool
  pub for_update : Bool
  pub lived : ℕ

-- The health marker that the agent writes.
pub mark : Run → Launcher → Launcher
mark run l = elim l.payload [
  | none ↦ l
  | some version ↦ if run.registered then record l { healthy = version ∷ l.healthy } else l
]

-- What `run_forever` does when the agent has ended.
pub after_run : Run → Launcher → Launcher
unfolding consider_rollback
after_run run l =
    if run.for_update
    then record l { failures = 0 }
    else if ltb run.lived too_soon
    then consider_rollback (record l { failures = l.failures + 1 })
    else record l { failures = 0 }

-- One turn of the loop of `run_forever`.
pub turn : List Manifest → Run → Launcher → Launcher
unfolding apply_downloaded mark after_run
turn pending run l = after_run run (mark run (apply_downloaded pending l))

-- A node that has only the agent of its image.
abbrev pub fresh : Launcher
fresh = record {
  payload = none;
  failures = 0;
  current = none;
  previous = none;
  healthy = [];
  refused = [];
}
