-- ===== src/Accounts/Gate.antt =====
-- What stands behind a request that is let through.
use looma.Base.{
  if◌then◌else◌, Bool-cases, ◌==◌, string_eq, nat_eq, ℕ, String, ◌≡◌, refl, sym, ap, ◌∙◌, ◌≢◌, ◌⊎◌,
  inl, inr, Bool, true, false, not, ◌&&◌, Option, none, some, arith,
}
use looma.Accounts.{Database, Account}
use looma.Accounts.Tokens.{by_api_key, by_session}
use looma.Accounts.Rows.{by_session-some, by_api_key-some, HasSession, HasKey}
use looma.Accounts.Caller.{
  as_session, as_key, refuse, by_key, session, api_key, emergency, anonymous, bearer_token,
  or_blank, How, supplied, by_emergency, Caller, Authenticator, identify,
}

module _ (hash_token : String → String) where
  -- What a caller has shown, by the way they came.
  abbrev pub ShowsAs :
      How
      → Option Account
      → Authenticator
      → Option String
      → Option String
      → Option String
      → ℕ
      → Database
      → Type 0
  ShowsAs session account auth session_token authorization admin_token now db =
      (a : Account) × (account ≡ some a)
      × (auth.has_accounts ≡ true)
      × HasSession hash_token (or_blank session_token) now db a
  ShowsAs api_key account auth session_token authorization admin_token now db =
      (a : Account) × (account ≡ some a)
      × (auth.has_accounts ≡ true)
      × HasKey hash_token (bearer_token authorization) db a
  ShowsAs emergency account auth session_token authorization admin_token now db =
      (account ≡ none)
      × (auth.emergency_token ≢ "")
      × (supplied admin_token authorization ≡ auth.emergency_token)
  ShowsAs anonymous account auth session_token authorization admin_token now db = account ≡ none

  abbrev pub Shows :
      Authenticator → Option String → Option String → Option String → ℕ → Database → Caller → Type 0
  Shows auth session_token authorization admin_token now db c =
      ShowsAs c.how c.account auth session_token authorization admin_token now db

  by_emergency-Shows :
      (auth : Authenticator) (session_token authorization admin_token : Option String) (now : ℕ)
      (db : Database)
      → Shows auth session_token authorization admin_token now db
          (by_emergency hash_token auth authorization admin_token)
  by_emergency-Shows auth session_token authorization admin_token now db =
      elim (Bool-cases (
        not (auth.emergency_token == "")
        && supplied admin_token authorization == auth.emergency_token)) [
          | inl accepted ↦ rw accepted (refl, ground (arith, accepted), ground (arith, accepted))
          | inr refused ↦ rw refused refl
        ]

  by_session-none :
      (token : String) (now : ℕ) (db : Database)
      → (by_session hash_token token now db).0 ≡ none
      → (by_session hash_token token now db).1 ≡ db
  unfolding by_session
  by_session-none token now db e = ground (arith, e)

  module _ (auth : Authenticator) (session_token authorization admin_token : Option String)
      (now : ℕ) (db : Database) where
    as_key-Shows :
        (found : Option Account)
        → auth.has_accounts ≡ true
        → (by_api_key hash_token (bearer_token authorization) now db).0 ≡ found
        → Shows auth session_token authorization admin_token now db
            (as_key hash_token found (by_emergency hash_token auth authorization admin_token))
    as_key-Shows none with_accounts e =
        by_emergency-Shows auth session_token authorization admin_token now db
    as_key-Shows (some a) with_accounts e =
        (a, refl, with_accounts, by_api_key-some hash_token (bearer_token authorization) now db a e)

    as_session-Shows :
        (r : Option Account × Database)
        → auth.has_accounts ≡ true
        → by_session hash_token (or_blank session_token) now db ≡ r
        → Shows auth session_token authorization admin_token now db
            (as_session hash_token r.0 r.1
              (by_key hash_token auth authorization admin_token now r.1)).0
    unfolding by_key
    as_session-Shows (none, db') with_accounts e =
        let same : db' ≡ db =
          ap (λ r. r.1) (sym e)
          ∙ by_session-none (or_blank session_token) now db (ap (λ r. r.0) e) in
        rw same (as_key-Shows _ with_accounts refl)
    as_session-Shows (some a, db') with_accounts e = (
      a,
      refl,
      with_accounts,
      by_session-some hash_token (or_blank session_token) now db a (ap (λ r. r.0) e),
    )

    either-Shows :
        (b : Bool)
        → auth.has_accounts ≡ b
        → Shows auth session_token authorization admin_token now db
            (let r = by_session hash_token (or_blank session_token) now db in
              if b
              then as_session hash_token r.0 r.1
                  (by_key hash_token auth authorization admin_token now r.1)
              else (by_emergency hash_token auth authorization admin_token, db)).0
    either-Shows true with_accounts = as_session-Shows _ with_accounts refl
    either-Shows false without =
        by_emergency-Shows auth session_token authorization admin_token now db

    identify-Shows :
        Shows auth session_token authorization admin_token now db
          (identify hash_token auth session_token authorization admin_token now db).0
    unfolding identify
    identify-Shows = either-Shows auth.has_accounts refl

  -- A request that is let through has shown a session that has not ended or a key that was not
  -- revoked, of an account that is there and enabled, or the emergency token, which must be set.
  -- Where only an administrator may go, it is the emergency token or an account of that role.
  pub refuse-identify :
      (auth : Authenticator) (session_token authorization admin_token : Option String) (now : ℕ)
      (db : Database) (admin : Bool)
      → let c = (identify hash_token auth session_token authorization admin_token now db).0 in
        refuse c admin ≡ none
        → (c.how ≢ anonymous)
          × Shows auth session_token authorization admin_token now db c
          × (admin ≡ true
              → (c.how ≡ emergency) ⊎ ((a : Account) × (c.account ≡ some a) × (a.role ≡ "admin")))
  unfolding refuse
  refuse-identify auth session_token authorization admin_token now db admin e =
      let c = (identify hash_token auth session_token authorization admin_token now db).0 in
      (
        λ stranger. absurd (ground (arith, e, stranger)),
        identify-Shows auth session_token authorization admin_token now db,
        λ strict. ground (arith, e, strict),
      )
