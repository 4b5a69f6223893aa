-- ===== src/Accounts/Tests.antt =====
-- Runs of the accounts and the gate, and their theorems at concrete rows.
use looma.Base.Filter.{filter}
use looma.Base.Dict.{insert, lookup}
use native.Mathlib.Decide.{ℕ_discrete}
use looma.Base.{
  Result, ok, err, ◌==◌, string_eq, nat_eq, String, ◌≡◌, refl, ◌≢◌, ◌⊎◌, Bool, true, false, Option,
  none, some, [],
}
use looma.Base.Texts.{strip, lstrip, rstrip, text_length, has_char, after_prefix}
use looma.Accounts.{
  password_too_short, update_where, has_char, text_length, session_ttl, find_account, sign_in,
  email_taken, AccountError, set_disabled, create, Database, Account,
}
use looma.Accounts.Tokens.{issue_key, start_session, by_api_key, by_session}
use looma.Accounts.Locks.{set_disabled-locks}
use looma.Accounts.Gate.{Shows, refuse-identify}
use looma.Accounts.Caller.{
  supplied, stripped, bearer_token, Caller, by_key, refuse, Authenticator, session, api_key,
  emergency, anonymous, identify,
}

abbrev same : String → String
same s = s

abbrev check : String → String → Option Bool
check password stored = some (password == stored)

abbrev never : String → Bool
never s = false

abbrev made : Database → Result AccountError (Account × Database) → Database
made db (ok (a, db')) = db'
made db (err e) = db

abbrev empty : Database
empty = record { accounts = []; sessions = []; api_keys = [] }

-- An administrator with a session and a client with a key.
base : Database
unfolding create strip lstrip rstrip text_length has_char filter string_eq start_session insert
    issue_key ℕ_discrete
base =
    let a = made empty (create same 1 " root@x.io " "0123456789" "h" "admin" "" empty) in
    let b = made a (create same 2 "me@x.io" "9876543210" "p" "client" "Me" a) in
    let c = (start_session same 1 "cookie" 0 b).1 in
    (issue_key same 1 2 "looma_sk_1" "looma_sk_1" "laptop" c).1

short : create same 3 "x@y" "123" "h" "admin" "" base ≡ err password_too_short
unfolding create strip lstrip rstrip text_length has_char string_eq
short = refl

taken : create same 3 "me@x.io " "9876543210" "p" "client" "" base ≡ err email_taken
unfolding base
taken = refl

abbrev auth : Authenticator
auth = record { has_accounts = true; emergency_token = "break glass" }

by_cookie : Caller
unfolding base identify by_session by_key by_api_key find_account lookup
by_cookie = (identify same auth (some "cookie") none none 5 base).0

root_came_in : by_cookie.how ≡ session
unfolding by_cookie
root_came_in = refl

too_late : (by_session same "cookie" session_ttl base).0 ≡ none
unfolding base by_session lookup find_account
too_late = refl

by_program : (identify same auth none (some "bEaReR  looma_sk_1 ") none 5 base).0.how ≡ api_key
unfolding base identify by_session by_key by_api_key bearer_token stripped after_prefix find_account
    update_where lookup
by_program = refl

broken_glass : (identify same auth none none (some " break glass") 5 base).0.how ≡ emergency
unfolding base identify by_session by_key by_api_key bearer_token supplied stripped after_prefix
    find_account update_where lookup
broken_glass = refl

abbrev root : Account
root = record { id = 1; email = "root@x.io"; role = "admin"; display_name = ""; disabled = false }

set_disabled-locks_example :
    let db' = set_disabled 2 true 9 base in
    ((sign_in same check never "root@x.io" "h" "" db').0 ≡ some root → root.id ≢ 2)
    × ((by_session same "cookie" 10 db').0 ≡ some root → root.id ≢ 2)
    × ((by_api_key same "looma_sk_1" 10 db').0 ≡ some root → root.id ≢ 2)
    × (2 ≢ root.id → find_account root.id db'.accounts ≡ find_account root.id base.accounts)
set_disabled-locks_example =
    set_disabled-locks same check never same 2 1 9 10 "root@x.io" "h" "" "cookie" "looma_sk_1" base
      root

refuse-identify_example :
    let c = (identify same auth (some "cookie") none none 5 base).0 in
    (c.how ≢ anonymous)
    × Shows same auth (some "cookie") none none 5 base c
    × (true ≡ true
        → (c.how ≡ emergency) ⊎ ((a : Account) × (c.account ≡ some a) × (a.role ≡ "admin")))
unfolding by_cookie refuse
refuse-identify_example = refuse-identify same auth (some "cookie") none none 5 base true refl
