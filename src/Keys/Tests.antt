-- ===== src/Keys/Tests.antt =====
-- Runs of the key store, and its theorems at concrete keys.
use looma.Base.Dict.{values, lookup, insert}
use looma.Base.Int.{pos}
use looma.Base.{
  if◌then◌else◌, ◌==◌, string_eq, nat_eq, String, ◌≡◌, refl, ap, ◌≢◌, Bool, true, false, Option,
  none, some, List, [], ◌∷◌, map, arith,
}
use looma.Keys.{
  save, admit, issue, validate, revoke, open_store, open_registration, decode_key, Payload,
  KeyStore,
}
use looma.Keys.Invariant.{
  call_validate, serve, call_issue, open_store-IsValid, handle_all-IsValid, handle_all, Call,
  IsValid,
}
use looma.Keys.Access.{revoke-shuts, validate-Opens, Opens}

abbrev read_body : String → Option Payload
read_body s =
    if s == "looma_one"
    then some (record { key_id = "k1"; secret = "s1"; address = "a"; tls = true })
    else if s == "looma_two"
    then some (record { key_id = "k2"; secret = "s2"; address = "a"; tls = true })
    else none

abbrev calls : List Call
calls =
    call_issue "k1" "s1" 10 "rack" (pos 2)
    ∷ call_issue "k2" "s2" 11 "" (pos 0)
    ∷ call_validate "looma_one" "n1"
    ∷ call_validate "looma_one" "n2"
    ∷ call_validate "looma_one" "n3"
    ∷ call_validate "looma_one" "n1"
    ∷ []

abbrev empty : KeyStore
empty = open_store "host" "master" true true []

store : KeyStore
unfolding open_store handle_all serve issue validate admit save decode_key insert lookup string_eq
store = handle_all read_body calls empty

two_machines : map (λ k. k.nodes) (values store.keys) ≡ ("n1" ∷ "n2" ∷ []) ∷ [] ∷ []
unfolding store
two_machines = refl

third_is_refused : (validate read_body "looma_one" "n3" store).0 ≡ none
unfolding store
third_is_refused = refl

written : store.saved ≡ store.keys
unfolding store
written = refl

closed : open_registration store ≡ false
unfolding store open_registration string_eq
closed = refl

empty-IsValid : IsValid empty
empty-IsValid = open_store-IsValid "host" "master" true true [] tt

store-IsValid : IsValid store
unfolding store
store-IsValid = handle_all-IsValid read_body calls empty empty-IsValid

handle_all-IsValid_example : IsValid (handle_all read_body calls empty)
handle_all-IsValid_example = handle_all-IsValid read_body calls empty empty-IsValid

validate-Opens_example : Opens read_body "looma_two" "n9" store "s2"
unfolding store
validate-Opens_example = validate-Opens read_body "looma_two" "n9" store "s2" refl

abbrev first : Payload
first = record { key_id = "k1"; secret = "s1"; address = "a"; tls = true }

abbrev is_master : String → Bool
is_master s = s == "master"

not_master : "looma_one" ≢ store.master_token
unfolding store string_eq
not_master e = let same : false ≡ true = ap is_master e in absurd (ground (arith, same))

revoke-shuts_example :
    (first.key_id ≡ "k1" → (validate read_body "looma_one" "n1" (revoke "k1" store).1).0 ≡ none)
    × (first.key_id ≢ "k1"
        → (validate read_body "looma_one" "n1" (revoke "k1" store).1).0
          ≡ (validate read_body "looma_one" "n1" store).0)
unfolding store revoke decode_key string_eq
revoke-shuts_example = revoke-shuts read_body "k1" "looma_one" "n1" store first refl refl not_master
