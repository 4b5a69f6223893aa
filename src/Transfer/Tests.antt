-- ===== src/Transfer/Tests.antt =====
-- Runs of the transfer of files, agent/looma_agent/transport/files.py, and the theorems at inputs.
use looma.Base.{
  some, if◌then◌else◌, ok, err, string_eq, nat_eq, is_nil, ℕ, String, ◌≡◌, refl, Bool, true, false,
  List, [], ◌∷◌,
}
use looma.Base.Dict.{Dict, NodupKeys, Entries, lookup-nil}
use looma.Hub.Tasks.{input_messages, describe_all}
use looma.Transfer.{
  stay_apart, paths_of, safe_target, TransferRefused, Declared, Item, piece, closed, receive_all,
  wanted_from, leaves_directory, absolute,
}
use looma.Transfer.Arrival.{receive_all-input_messages}
use looma.Transfer.Pieces.{items_of, declared_all}
use looma.Transfer.Refusing.{receive_all-IsDeclared, IsDeclared}

abbrev anywhere : List String → Bool
anywhere parts = true

traversal : safe_target anywhere "a/../../b" ≡ err (leaves_directory "a/../../b")
unfolding safe_target string_eq looma.Base.Texts.starts_with looma.Base.Filter.filter
    looma.Base.Texts.split
traversal = refl

rooted : safe_target anywhere "/etc/passwd" ≡ err (absolute "/etc/passwd")
unfolding safe_target string_eq looma.Base.Texts.starts_with
rooted = refl

nested : safe_target anywhere "data/./x" ≡ ok ("data" ∷ "x" ∷ [])
unfolding safe_target string_eq looma.Base.Texts.starts_with looma.Base.Filter.filter
    looma.Base.Texts.split
nested = refl

abbrev hash : List ℕ → String
hash bytes = if is_nil bytes then "none" else "some"

abbrev files : Dict String (List ℕ)
files = ("a", 1 ∷ 2 ∷ []) ∷ ("b", []) ∷ []

files_once : NodupKeys files
unfolding looma.Base.Dict.lookup string_eq
files_once = (refl, (refl, tt))

safe_a : safe_target anywhere "a" ≡ ok ("a" ∷ [])
unfolding safe_target string_eq looma.Base.Texts.starts_with looma.Base.Filter.filter
    looma.Base.Texts.split
safe_a = refl

safe_b : safe_target anywhere "b" ≡ ok ("b" ∷ [])
unfolding safe_target string_eq looma.Base.Texts.starts_with looma.Base.Filter.filter
    looma.Base.Texts.split
safe_b = refl

files_apart : stay_apart (paths_of (wanted_from [] (declared_all (describe_all hash files)))) ≡ true
unfolding stay_apart looma.Base.Dict.insert string_eq looma.Base.Filter.filter
    looma.Base.Texts.split looma.Base.Texts.join
files_apart = refl

-- The partial file of "x" is the file of another input, and "./x" is "x".
met :
    stay_apart (
      paths_of (
        wanted_from [] (
          record { name = "x"; size_bytes = 1; digest = "" }
          ∷ record { name = "x.looma-partial"; size_bytes = 1; digest = "" }
          ∷ [])))
    ≡ false
unfolding stay_apart looma.Base.Dict.insert string_eq looma.Base.Filter.filter
    looma.Base.Texts.split looma.Base.Texts.join
met = refl

met_again :
    stay_apart (
      paths_of (
        wanted_from [] (
          record { name = "x"; size_bytes = 1; digest = "" }
          ∷ record { name = "./x"; size_bytes = 1; digest = "" }
          ∷ [])))
    ≡ false
unfolding stay_apart looma.Base.Dict.insert string_eq looma.Base.Filter.filter
    looma.Base.Texts.split looma.Base.Texts.join
met_again = refl

receive_all-input_messages_example :
    receive_all hash anywhere
      (declared_all (describe_all hash files))
      (items_of (input_messages "t" files))
    ≡ some (ok files)
receive_all-input_messages_example =
    receive_all-input_messages hash anywhere "t" files files_once
      (("a" ∷ [], safe_a), (("b" ∷ [], safe_b), tt)) files_apart

-- Two files whose pieces mix.
abbrev expected : List Declared
expected =
    record { name = "a"; size_bytes = 2; digest = "some" }
    ∷ record { name = "b"; size_bytes = 1; digest = "some" }
    ∷ []

abbrev mixed : List Item
mixed = piece "a" (1 ∷ []) false ∷ piece "b" (9 ∷ []) true ∷ piece "a" (2 ∷ []) true ∷ closed ∷ []

abbrev arrived : Dict String (List ℕ)
arrived = ("b", 9 ∷ []) ∷ ("a", 1 ∷ 2 ∷ []) ∷ []

mixed_arrive : receive_all hash anywhere expected mixed ≡ some (ok arrived)
unfolding receive_all safe_target string_eq looma.Base.Texts.starts_with looma.Base.Filter.filter
    looma.Base.Texts.split looma.Base.Dict.insert looma.Base.Dict.lookup looma.Transfer.finish
    looma.Base.Dict.erase looma.Base.Texts.join
mixed_arrive = refl

receive_all-IsDeclared_example : Entries (IsDeclared hash (wanted_from [] expected)) arrived
receive_all-IsDeclared_example =
    receive_all-IsDeclared hash anywhere expected mixed arrived mixed_arrive
