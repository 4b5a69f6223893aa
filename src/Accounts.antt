-- ===== src/Accounts.antt =====
-- Accounts, sessions and API keys, src/looma/accounts/store.py.
-- A table is the list of its rows; a statement of SQL is the function of the tables that it stands
-- for. The hashes of passwords and tokens, what checks them, and the `lower` of the database are
-- parameters; drawn tokens and the time are arguments.
pub mod Tokens
pub mod Rows
pub mod Locks
pub mod Gate
pub mod Caller
mod Tests
use looma.Base.Filter.{filter, count_if}
use looma.Base.Dict.{values, lookup, insert, erase, Dict}
use looma.Base.{
  ltb, leb, eqb, if◌then◌else◌, is_some, Result, ok, err, ◌==◌, string_eq, nat_eq, ℕ, String, Bool,
  not, ◌&&◌, ◌||◌, Option, none, some, List, [], ◌∷◌, ◌++◌,
}
use looma.Base.Texts.{has_char, text_length, strip}

pub record AccountRow : Type 0 where
  pub id : ℕ
  pub email : String
  pub password : String
  pub role : String
  pub display_name : String
  pub disabled_at : Option ℕ

pub record Account : Type 0 where
  pub id : ℕ
  pub email : String
  pub role : String
  pub display_name : String
  pub disabled : Bool

-- `Account.is_admin`
abbrev pub is_admin : Account → Bool
is_admin a = a.role == "admin"

pub record Session : Type 0 where
  pub account_id : ℕ
  pub last_seen_at : ℕ
  pub expires_at : ℕ

pub record ApiKey : Type 0 where
  pub id : ℕ
  pub account_id : ℕ
  pub token_hash : String
  pub hint : String
  pub name : String
  pub last_used_at : Option ℕ
  pub revoked_at : Option ℕ

pub record Database : Type 0 where
  pub accounts : List AccountRow
  pub sessions : Dict String Session
  pub api_keys : List ApiKey

pub data AccountError : Type 0 where
  not_an_email no_such_role password_too_short email_taken : AccountError

-- A month, in milliseconds.
abbrev pub session_ttl : ℕ
session_ttl = 2_592_000_000

-- `_account`
abbrev pub account_of : AccountRow → Account
account_of row = record {
  id = row.id;
  email = row.email;
  role = row.role;
  display_name = row.display_name;
  disabled = is_some row.disabled_at;
}

abbrev pub first_row {ℓ} : {A : Type ℓ} → List A → Option A
first_row [] = none
first_row (x ∷ xs) = some x

-- `WHERE id = $1`
abbrev pub has_id : ℕ → AccountRow → Bool
has_id id row = eqb row.id id

pub find_account : ℕ → List AccountRow → Option AccountRow
find_account id rows = first_row (filter (has_id id) rows)

-- An UPDATE of the rows that a condition picks.
unfoldable pub update_where : {A : Type 0} → (A → Bool) → (A → A) → List A → List A
update_where which change [] = []
update_where which change (x ∷ xs) =
    (if which x then change x else x) ∷ update_where which change xs

-- `DELETE FROM sessions WHERE ...`
unfoldable pub delete_where : (Session → Bool) → Dict String Session → Dict String Session
delete_where which [] = []
delete_where which ((h, s) ∷ rest) =
    let kept = delete_where which rest in if which s then kept else (h, s) ∷ kept

-- `end_all_sessions`
pub end_all_sessions : ℕ → Database → Database
unfolding delete_where
end_all_sessions account_id db = record db {
  sessions = delete_where (λ s. eqb s.account_id account_id) db.sessions;
}

-- `set_password_quietly`, with the new hash.
pub set_password_quietly : ℕ → String → Database → Database
unfolding update_where
set_password_quietly account_id hashed db = record db {
  accounts = update_where (has_id account_id) (λ row. record row { password = hashed }) db.accounts;
}

-- `set_password`, with the password's length and its hash.
pub set_password : ℕ → String → String → Database → Result AccountError Database
unfolding end_all_sessions set_password_quietly text_length
set_password account_id password hashed db =
    if ltb (text_length password) 10
    then err password_too_short
    else ok (end_all_sessions account_id (set_password_quietly account_id hashed db))

-- `set_disabled`
pub set_disabled : ℕ → Bool → ℕ → Database → Database
unfolding end_all_sessions update_where
set_disabled account_id disabled now db =
    let mark = if disabled then some now else none in
    let db' = record db {
      accounts =
          update_where (has_id account_id) (λ row. record row { disabled_at = mark }) db.accounts;
    } in
    if disabled then end_all_sessions account_id db' else db'

-- `by_id`
pub by_id : ℕ → Database → Option Account
unfolding find_account
by_id account_id db = elim (find_account account_id db.accounts) [
  | none ↦ none
  | some row ↦ some (account_of row)
]

-- `end_session`, for the hash of a token.
pub end_session : String → Database → Database
end_session token_hash db = record db { sessions = erase token_hash db.sessions }

-- `forget_expired_sessions`
pub forget_expired_sessions : ℕ → Database → ℕ × Database
unfolding delete_where
forget_expired_sessions now db = (
  count_if (λ s. leb s.expires_at now) (values db.sessions),
  record db { sessions = delete_where (λ s. leb s.expires_at now) db.sessions },
)

-- `revoke_key`
pub revoke_key : ℕ → ℕ → ℕ → Database → Bool × Database
unfolding update_where
revoke_key account_id key_id now db =
    let mine : ApiKey → Bool =
      λ k. eqb k.id key_id && eqb k.account_id account_id && not (is_some k.revoked_at) in
    (
      eqb (count_if mine db.api_keys) 1,
      record db {
        api_keys = update_where mine (λ k. record k { revoked_at = some now }) db.api_keys;
      },
    )

-- The account of a row that was found, unless it is disabled.
abbrev pub enabled : Option AccountRow → Option Account
enabled none = none
enabled (some row) = elim row.disabled_at [ none ↦ some (account_of row) | some at ↦ none ]

-- `create`, with the id that the database gives and the hash of the password; `lower` is the database's.
pub create :
    (String → String)
    → ℕ
    → String
    → String
    → String
    → String
    → String
    → Database
    → Result AccountError (Account × Database)
unfolding text_length has_char strip
create lower id email password hashed role display_name db =
    let email' = strip email in
    if not (has_char 64 email')
    then err not_an_email
    else if not (role == "admin" || role == "client")
    then err no_such_role
    else if ltb (text_length password) 10
    then err password_too_short
    else if is_some (first_row (filter (λ row. lower row.email == lower email') db.accounts))
    then err email_taken
    else (let row : AccountRow = record {
      id = id;
      email = email';
      password = hashed;
      role = role;
      display_name = display_name;
      disabled_at = none;
    } in
        ok (account_of row, record db { accounts = db.accounts ++ (row ∷ []) }))

module _ (lower : String → String) (verify_password : String → String → Option Bool)
    (needs_rehash : String → Bool) where
  abbrev check_password : String → String → AccountRow → Database → Option Account × Database
  check_password password rehashed row db =
      if is_some row.disabled_at
      then (none, db)
      else (elim (verify_password password row.password) [
        | none ↦ (none, db)
        | some matches ↦ if not matches then (none, db) else (
          some (account_of row),
          if needs_rehash row.password then set_password_quietly row.id rehashed db else db,
        )
      ])

  -- `sign_in`; `verify_password` gives nothing where it raises, `rehashed` is the new hash that is
  -- stored if the old one is out of date.
  pub sign_in : String → String → String → Database → Option Account × Database
  unfolding strip set_password_quietly
  sign_in email password rehashed db =
      elim (first_row (filter (λ row. lower row.email == lower (strip email)) db.accounts)) [
        | none ↦ (none, db)
        | some row ↦ check_password password rehashed row db
      ]
