-- ===== src/Accounts/Caller.antt =====
-- Who sent a request and where they may go, src/looma/api/auth.py.
use looma.Base.{
  if◌then◌else◌, ◌==◌, string_eq, nat_eq, ℕ, String, Bool, true, false, not, ◌&&◌, Option, none,
  some,
}
use looma.Base.Texts.{after_prefix, strip}
use looma.Accounts.{Database, is_admin, Account}
use looma.Accounts.Tokens.{by_session, by_api_key}

pub data How : Type 0 where
  session api_key emergency anonymous : How

pub record Caller : Type 0 where
  pub account : Option Account
  pub how : How

abbrev pub known : Caller → Bool
known c = elim c.how [ session ↦ true | api_key ↦ true | emergency ↦ true | anonymous ↦ false ]

abbrev pub caller_is_admin : Caller → Bool
caller_is_admin c = elim c.how [
  | emergency ↦ true
  | _ ↦ elim c.account [ none ↦ false | some a ↦ is_admin a ]
]

abbrev pub nobody : Caller
nobody = record { account = none; how = anonymous }

-- `x or ""`
abbrev pub or_blank : Option String → String
or_blank none = ""
or_blank (some s) = s

unfoldable pub stripped : Option String → String
unfolding strip
stripped none = ""
stripped (some s) = strip s

-- `bearer_token`
unfoldable pub bearer_token : Option String → String
unfolding strip stripped after_prefix
bearer_token header = stripped (after_prefix "bearer " (strip (or_blank header)))

-- `Authenticator`; without a database there are no accounts.
pub record Authenticator : Type 0 where
  pub has_accounts : Bool
  pub emergency_token : String

-- `Authenticator.__init__`
pub new_authenticator : Bool → Option String → Authenticator
unfolding strip
new_authenticator has_accounts token = record {
  has_accounts = has_accounts;
  emergency_token = strip (or_blank token);
}

-- `refuse`
pub data Refusal : Type 0 where
  must_sign_in admin_only : Refusal

unfoldable pub refuse : Caller → Bool → Option Refusal
refuse c admin =
    if not (known c)
    then some must_sign_in
    else if admin && not (caller_is_admin c)
    then some admin_only
    else none

-- `(admin_token or "").strip() or bearer_token(authorization)`
unfoldable pub supplied : Option String → Option String → String
unfolding bearer_token strip
supplied admin_token authorization =
    let own = strip (or_blank admin_token) in if own == "" then bearer_token authorization else own

module _ (hash_token : String → String) where
  abbrev pub by_emergency : Authenticator → Option String → Option String → Caller
  by_emergency auth authorization admin_token =
      if not (auth.emergency_token == "")
        && supplied admin_token authorization == auth.emergency_token
      then record { account = none; how = emergency }
      else nobody

  abbrev pub as_key : Option Account → Caller → Caller
  as_key none otherwise = otherwise
  as_key (some account) otherwise = record { account = some account; how = api_key }

  unfoldable pub by_key :
      Authenticator → Option String → Option String → ℕ → Database → Caller × Database
  unfolding by_api_key bearer_token
  by_key auth authorization admin_token now db =
      let (found, db') = by_api_key hash_token (bearer_token authorization) now db in
      (as_key found (by_emergency auth authorization admin_token), db')

  abbrev pub as_session : Option Account → Database → Caller × Database → Caller × Database
  as_session none db' otherwise = otherwise
  as_session (some account) db' otherwise = (record { account = some account; how = session }, db')

  -- `identify`: a session before a key, a key before the emergency token.
  unfoldable pub identify :
      Authenticator
      → Option String
      → Option String
      → Option String
      → ℕ
      → Database
      → Caller × Database
  unfolding by_session by_key
  identify auth session_token authorization admin_token now db =
      if auth.has_accounts
      then (let (found, db') = by_session hash_token (or_blank session_token) now db in
          as_session found db' (by_key auth authorization admin_token now db'))
      else (by_emergency auth authorization admin_token, db)
