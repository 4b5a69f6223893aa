-- ===== src/Transfer.antt =====
-- Files that arrive at a node, agent/looma_agent/transport/files.py, and the loop that collects a
-- task's input, agent/looma_agent/control/tasks.py. Digests are in small letters. What the file system
-- says of a name, once its links are followed, and the hash are arguments.
pub mod Pieces
pub mod Arrival
pub mod Refusing
mod Tests
use looma.Base.{
  ltb, leb, eqb, if◌then◌else◌, Result, ok, err, ◌>>=◌, ◌==◌, contains, string_eq, nat_eq, length,
  ℕ, String, Bool, true, false, not, ◌&&◌, ◌||◌, Option, none, some, List, [], ◌∷◌, ◌++◌,
}
use looma.Base.Texts.{join, split, starts_with}
use looma.Base.Dict.{erase, lookup, insert, Dict}
use looma.Base.Filter.{filter}

-- `TransferRefused`, by its reason.
pub data TransferRefused : Type 0 where
  no_name absolute leaves_directory resolves_outside : (name : String) → TransferRefused
  too_long too_short corrupted not_open : TransferRefused
  idle cut_off : TransferRefused
  not_declared : (name : String) → TransferRefused

-- `Path(name).parts`, of a relative path.
abbrev pub parts_of : String → List String
parts_of name = filter (λ p. not (p == "" || p == ".")) (split 47 name)

-- `safe_target`: the parts below the task's directory. `inside` says whether the parent of the target
-- resolves inside it.
unfoldable pub safe_target : (List String → Bool) → String → Result TransferRefused (List String)
safe_target inside name =
    if name == "" || name == "." || name == ".."
    then err (no_name name)
    else if starts_with "/" name || starts_with "\\" name
    then err (absolute name)
    else if contains (parts_of name) ".."
    then err (leaves_directory name)
    else if not (inside (parts_of name))
    then err (resolves_outside name)
    else ok (parts_of name)

-- What a task says of one input.
pub record Declared : Type 0 where
  pub name : String
  pub size_bytes : ℕ
  pub digest : String

-- `IncomingFile`, while its partial file is open.
pub record IncomingFile : Type 0 where
  pub expected_bytes : ℕ
  pub expected_digest : String
  pub received : List ℕ

abbrev pub begin_file : Declared → IncomingFile
begin_file d = record { expected_bytes = d.size_bytes; expected_digest = d.digest; received = [] }

-- `IncomingFile.write`
unfoldable pub write : List ℕ → IncomingFile → Result TransferRefused IncomingFile
write chunk f =
    let received = f.received ++ chunk in
    if not (eqb f.expected_bytes 0) && ltb f.expected_bytes (length received)
    then err too_long
    else ok (record f { received = received })

-- `IncomingFile.finish`: the bytes that the task sees.
unfoldable pub finish : (List ℕ → String) → IncomingFile → Result TransferRefused (List ℕ)
finish digest f =
    if not (eqb f.expected_bytes 0) && not (eqb (length f.received) f.expected_bytes)
    then err too_short
    else if not (f.expected_digest == "") && not (digest f.received == f.expected_digest)
    then err corrupted
    else ok f.received

-- What stands in the queue of a task's input.
pub data Item : Type 0 where
  piece : (name : String) → (bytes : List ℕ) → (last : Bool) → Item
  closed : Item

-- The variables of `_receive_all`: the files that are open and those that are complete.
pub record Arriving : Type 0 where
  pub open_files : Dict String IncomingFile
  pub done : Dict String (List ℕ)

abbrev pub nothing_yet : Arriving
nothing_yet = record { open_files = []; done = [] }

abbrev pub or_begin : Declared → Option IncomingFile → IncomingFile
or_begin d none = begin_file d
or_begin d (some f) = f

-- The names are checked before anything is written.
unfoldable pub check_names :
    (List String → Bool) → List Declared → Result TransferRefused (Unit {0})
check_names inside [] = ok tt
check_names inside (d ∷ ds) = safe_target inside d.name >>= λ _. check_names inside ds

-- `{f.name: f for f in expected}`
abbrev pub wanted_from : Dict String Declared → List Declared → Dict String Declared
wanted_from found [] = found
wanted_from found (d ∷ ds) = wanted_from (insert d.name d found) ds

-- `target.with_name(target.name + PARTIAL_SUFFIX)`
abbrev pub partial_of : List String → List String
partial_of [] = []
partial_of (p ∷ []) = join p ".looma-partial" ∷ []
partial_of (p ∷ q ∷ ps) = p ∷ partial_of (q ∷ ps)

-- Where each input is written, and where it is put.
abbrev pub paths_of : Dict String Declared → List (List String)
paths_of [] = []
paths_of ((name, _) ∷ wanted) = parts_of name ∷ partial_of (parts_of name) ∷ paths_of wanted

-- The first path is the second one, or a directory above it.
unfoldable pub leads_to : List String → List String → Bool
leads_to [] qs = true
leads_to (p ∷ ps) [] = false
leads_to (p ∷ ps) (q ∷ qs) = p == q && leads_to ps qs

unfoldable pub apart_from : List String → List (List String) → Bool
unfolding leads_to
apart_from p [] = true
apart_from p (q ∷ qs) = not (leads_to p q) && not (leads_to q p) && apart_from p qs

-- No two of the paths are the same, and none lies below another.
unfoldable pub stay_apart : List (List String) → Bool
unfolding apart_from
stay_apart [] = true
stay_apart (p ∷ ps) = apart_from p ps && stay_apart ps

module _ (digest : List ℕ → String) where
  -- A file that is open, and then perhaps complete.
  unfoldable pub file_away :
      String → Bool → IncomingFile → Arriving → Result TransferRefused Arriving
  file_away name false f a = ok (record a { open_files = insert name f a.open_files })
  file_away name true f a = finish digest f >>= λ bytes.
      ok (record { open_files = erase name a.open_files; done = insert name bytes a.done })

  -- One round of the loop of `_receive_all`, for a piece of a file that is declared.
  unfoldable pub take_piece : Declared → List ℕ → Bool → Arriving → Result TransferRefused Arriving
  unfolding file_away write
  take_piece d bytes last a =
      write bytes (or_begin d (lookup d.name a.open_files)) >>= λ f. file_away d.name last f a

  -- One round of the loop of `_receive_all`, for what the queue gives.
  unfoldable pub take_item :
      Dict String Declared → Item → Arriving → Result TransferRefused Arriving
  unfolding take_piece
  take_item wanted closed a = err cut_off
  take_item wanted (piece name bytes last) a = elim (lookup name wanted) [
    | none ↦ err (not_declared name)
    | some d ↦ take_piece d bytes last a
  ]

  -- The loop of `_receive_all`; nothing more to get is a wait that timed out.
  unfoldable pub receive_loop :
      Dict String Declared → List Item → Arriving → Result TransferRefused (Dict String (List ℕ))
  unfolding take_item
  receive_loop wanted [] a = if leb (length wanted) (length a.done) then ok a.done else err idle
  receive_loop wanted (item ∷ items) a =
      let next = take_item wanted item a >>= λ a'. receive_loop wanted items a' in
      if leb (length wanted) (length a.done) then ok a.done else next

  -- `_receive_all`: the files that the task sees, by name. Where two inputs meet on the disk, what
  -- they leave depends on when each is opened and renamed, and the model says nothing.
  unfoldable pub receive_all :
      (List String → Bool)
      → List Declared
      → List Item
      → Option (Result TransferRefused (Dict String (List ℕ)))
  unfolding check_names receive_loop stay_apart
  receive_all inside expected items =
      let wanted = wanted_from [] expected in
      elim (check_names inside expected) [
        | err e ↦ some (err e)
        | ok _ ↦
            if stay_apart (paths_of wanted)
            then some (receive_loop wanted items nothing_yet)
            else none
      ]
