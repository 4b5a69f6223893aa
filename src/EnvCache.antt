-- ===== src/EnvCache.antt =====
-- The environments that a node keeps for its tasks: `EnvironmentCache` of
-- agent/looma_agent/tasks/env/cache.py, with `Environment` and the marker of
-- agent/looma_agent/tasks/env/base.py. A directory is what its marker says; the removal of a
-- directory works; times are seconds of the clock. What a builder makes is an argument.
pub mod Evicting
pub mod Leasing
pub mod Spared
pub mod Holding
pub mod Apart
pub mod Quota
mod Tests
use looma.Base.{
  true, or_zero, ltb, leb, eqb, if◌then◌else◌, is_some, Result, ok, err, ◌==◌, contains, string_eq,
  nat_eq, str_lt, ℕ, ◌+◌, ◌-◌, String, Bool, not, ◌&&◌, ◌||◌, Option, none, some, List, [], ◌∷◌,
}
use looma.Base.Int.{ℤ, pos_part}
use looma.Base.Dict.{Dict, lookup, insert, erase}
use looma.Base.Sort.{sort_by}
use looma.Base.Texts.{join, starts_with}

pub data EnvError : Type 0 where
  unusable build_failed : (why : String) → EnvError
  unknown_kind : (kind : String) → EnvError
  rename_failed : EnvError

-- `Environment`; no path is the empty text.
pub record Environment : Type 0 where
  pub fingerprint : String
  pub kind : String
  pub path : String
  pub size_bytes : ℕ
  pub image_env : Dict String String
  pub image_workdir : String

abbrev pub no_environment : Environment
no_environment = record {
  fingerprint = "none";
  kind = "none";
  path = "";
  size_bytes = 0;
  image_env = [];
  image_workdir = "";
}

-- What a marker holds; a key may be missing.
pub record Marker : Type 0 where
  pub kind : Option String
  pub size_bytes : Option ℕ
  pub image_env : Option (Dict String String)
  pub image_workdir : Option String

-- A directory under the root: when it changed, and when its marker did.
pub record Folder : Type 0 where
  pub marker : Option Marker
  pub holds_files : Bool
  pub changed_at : ℕ
  pub used_at : ℕ

pub record EnvironmentCache : Type 0 where
  pub quota_bytes : ℕ
  pub unusable : String
  pub leases : Dict String ℕ
  pub folders : Dict String Folder

abbrev pub building_prefix : String
building_prefix = ".building-"

abbrev pub stale_build : ℕ
stale_build = 21_600

abbrev pub or_else : {A : Type 0} → A → Option A → A
or_else a none = a
or_else a (some b) = b

-- The directories that `_sweep_unfinished` leaves.
unfoldable pub still_built : ℕ → Dict String Folder → Dict String Folder
still_built now [] = []
still_built now ((name, d) ∷ fs) =
    let rest = still_built now fs in
    if starts_with building_prefix name && leb (d.changed_at + stale_build) now
    then rest
    else (name, d) ∷ rest

-- `__init__`; a directory that cannot be made gives the reason.
unfoldable pub open_cache : ℤ → Option String → ℕ → Dict String Folder → EnvironmentCache
open_cache quota why now found = record {
  quota_bytes = pos_part quota;
  unusable = or_else "" why;
  leases = [];
  folders = if is_some why then found else still_built now found;
}

-- `_key`, from the fingerprint of the specification and the variant of the node.
abbrev pub key : String → String → String
key base variant = if variant == "" then base else join base (join "-" variant)

abbrev pub environment : String → Marker → Environment
environment fp m = record {
  fingerprint = fp;
  kind = or_else "python" m.kind;
  path = fp;
  size_bytes = or_zero m.size_bytes;
  image_env = or_else [] m.image_env;
  image_workdir = or_else "" m.image_workdir;
}

-- `read_marker` of a directory that may be missing.
unfoldable pub marker_at : String → Dict String Folder → Option Marker
marker_at fp folders = elim (lookup fp folders) [ none ↦ none | some d ↦ d.marker ]

-- `_ready`
unfoldable pub ready : String → EnvironmentCache → Option Environment
ready fp c = elim (marker_at fp c.folders) [ none ↦ none | some m ↦ some (environment fp m) ]

-- `_lease`
unfoldable pub lease : String → EnvironmentCache → EnvironmentCache
lease fp c = record c { leases = insert fp (or_zero (lookup fp c.leases) + 1) c.leases }

-- `release`
unfoldable pub release : String → EnvironmentCache → EnvironmentCache
release fp c =
    if fp == "" || fp == "none"
    then c
    else if ltb 1 (or_zero (lookup fp c.leases))
    then record c { leases = insert fp (or_zero (lookup fp c.leases) - 1) c.leases }
    else record c { leases = erase fp c.leases }

-- `_touch`, where a directory without a marker stays as it is.
unfoldable pub touched : String → ℕ → Dict String Folder → Dict String Folder
touched fp now folders = elim (lookup fp folders) [
  | none ↦ folders
  | some d ↦ if is_some d.marker then insert fp (record d { used_at = now }) folders else folders
]

abbrev pub touch : String → ℕ → EnvironmentCache → EnvironmentCache
touch fp now c = record c { folders = touched fp now c.folders }

-- What a builder leaves in its directory.
pub record Built : Type 0 where
  pub size_bytes : ℕ
  pub image_env : Option (Dict String String)
  pub image_workdir : Option String

abbrev pub marker_for : String → Built → Marker
marker_for kind b = record {
  kind = some kind;
  size_bytes = some b.size_bytes;
  image_env = b.image_env;
  image_workdir = b.image_workdir;
}

abbrev pub built_folder : String → Built → ℕ → Folder
built_folder kind b now = record {
  marker = some (marker_for kind b);
  holds_files = true;
  changed_at = now;
  used_at = now;
}

-- The end of `_build`: the rename fails if there is a directory of that name that is not empty.
unfoldable pub move_in :
    String → String → Built → ℕ → EnvironmentCache → EnvironmentCache × Result EnvError Environment
unfolding ready
move_in kind fp b now c = elim (lookup fp c.folders) [
  | none ↦ (
    record c { folders = insert fp (built_folder kind b now) c.folders },
    ok (environment fp (marker_for kind b)),
  )
  | some d ↦ elim (ready fp c) [
    | some theirs ↦ (c, ok theirs)
    | none ↦ if d.holds_files then (c, err rename_failed) else (
      record c { folders = insert fp (built_folder kind b now) c.folders },
      ok (environment fp (marker_for kind b)),
    )
  ]
]

-- `_build`
unfoldable pub build :
    String
    → String
    → Result EnvError Built
    → ℕ
    → EnvironmentCache
    → EnvironmentCache × Result EnvError Environment
unfolding move_in
build kind fp (err e) now c = (c, err e)
build kind fp (ok b) now c = move_in kind fp b now c

abbrev pub is_counted : String → Folder → Bool
is_counted name d = not (starts_with building_prefix name) && is_some d.marker

abbrev pub marked_size : Option Marker → ℕ
marked_size none = 0
marked_size (some m) = or_zero m.size_bytes

-- `total_bytes`
unfoldable pub total_bytes : Dict String Folder → ℕ
total_bytes [] = 0
total_bytes ((name, d) ∷ fs) =
    let rest = total_bytes fs in if is_counted name d then marked_size d.marker + rest else rest

pub record Candidate : Type 0 where
  pub used_at : ℕ
  pub name : String
  pub size_bytes : ℕ

abbrev pub candidate : String → Folder → Candidate
candidate name d = record { used_at = d.used_at; name = name; size_bytes = marked_size d.marker }

-- The loop of `_candidates`.
unfoldable pub unleased : Dict String ℕ → Dict String Folder → List Candidate
unleased leases [] = []
unleased leases ((name, d) ∷ fs) =
    let rest = unleased leases fs in
    if is_counted name d && not (is_some (lookup name leases))
    then candidate name d ∷ rest
    else rest

abbrev pub used_before : Candidate → Candidate → Bool
used_before a b = ltb a.used_at b.used_at || (eqb a.used_at b.used_at && str_lt a.name b.name)

-- `_candidates`
unfoldable pub candidates : EnvironmentCache → List Candidate
unfolding unleased
candidates c = sort_by used_before (unleased c.leases c.folders)

-- The loop of `_evict_to_quota`; below zero or at zero, the total is within every quota.
unfoldable pub evict_loop : ℕ → ℕ → List Candidate → Dict String Folder → Dict String Folder
evict_loop quota total [] folders = folders
evict_loop quota total (k ∷ ks) folders =
    let rest = evict_loop quota (total - k.size_bytes) ks (erase k.name folders) in
    if leb total quota then folders else rest

-- `_evict_to_quota`
unfoldable pub evict_to_quota : EnvironmentCache → EnvironmentCache
unfolding candidates evict_loop total_bytes
evict_to_quota c =
    if eqb c.quota_bytes 0 || leb (total_bytes c.folders) c.quota_bytes then c else record c {
      folders = evict_loop c.quota_bytes (total_bytes c.folders) (candidates c) c.folders;
    }

abbrev pub kinds : List String
kinds = "python" ∷ "binary" ∷ "oci" ∷ []

-- The last lines of `acquire`, after a build.
unfoldable pub provisioned :
    String
    → EnvironmentCache × Result EnvError Environment
    → EnvironmentCache × Result EnvError Environment
unfolding lease evict_to_quota
provisioned fp (c, err e) = (c, err e)
provisioned fp (c, ok e) = (evict_to_quota (lease fp c), ok e)

-- `acquire`, of a kind and under a key, when nothing else happens in between.
unfoldable pub acquire :
    String
    → String
    → Result EnvError Built
    → ℕ
    → EnvironmentCache
    → EnvironmentCache × Result EnvError Environment
unfolding ready lease touched build provisioned
acquire kind fp made now c =
    if kind == "none"
    then (c, ok no_environment)
    else if not (c.unusable == "")
    then (c, err (unusable c.unusable))
    else if not (contains kinds kind)
    then (c, err (unknown_kind kind))
    else elim (ready fp c) [
      | some e ↦ (touch fp now (lease fp c), ok e)
      | none ↦ provisioned fp (build kind fp made now c)
    ]

pub record Snapshot : Type 0 where
  pub unusable : String
  pub bytes : ℕ
  pub quota_bytes : ℕ
  pub leased : Dict String ℕ

-- `snapshot`
unfoldable pub snapshot : EnvironmentCache → Snapshot
unfolding total_bytes
snapshot c = record {
  unusable = c.unusable;
  bytes = total_bytes c.folders;
  quota_bytes = c.quota_bytes;
  leased = c.leases;
}
