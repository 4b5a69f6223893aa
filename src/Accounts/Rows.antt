-- ===== src/Accounts/Rows.antt =====
-- What an account that was found says of the tables.
use looma.Base.Dict.{lookup}
use looma.Base.Filter.{filter-All_self, filter}
use looma.Base.{
  Bool-cases, Option-cases, string_eq, nat_eq, All, ℕ, ◌<◌, String, ◌≡◌, refl, ◌≢◌, ◌⊎◌, inl, inr,
  Bool, Option, none, some, List, [], ◌∷◌, arith,
}
use looma.Accounts.{
  enabled, account_of, Session, first_row, find_account, Database, ApiKey, AccountRow, Account,
}
use looma.Accounts.Tokens.{key_account, session_account, live_key, by_session, by_api_key}

pub enabled-some :
    (o : Option AccountRow) (a : Account)
    → enabled o ≡ some a
    → (row : AccountRow) × (o ≡ some row) × (row.disabled_at ≡ none) × (a ≡ account_of row)
enabled-some none a e = cc
enabled-some (some row) a e = go row.disabled_at refl
  where
    go :
        (d : Option ℕ)
        → row.disabled_at ≡ d
        → (r : AccountRow) × (some row ≡ some r) × (r.disabled_at ≡ none) × (a ≡ account_of r)
    go none h = (row, refl, h, ground (arith, e, h))
    go (some at) h = absurd (ground (arith, e, h))

pub first_row-All :
    {A : Type 0} (P : A → Type 0) (row : A) (rows : List A)
    → All P rows
    → first_row rows ≡ some row
    → P row
first_row-All P row [] h e = cc
first_row-All P row (x ∷ xs) h e = let same : x ≡ row = ground (arith, e) in rw (← same) h.0

-- A row that stands in a table.
abbrev pub Stores : ApiKey → List ApiKey → Type 0
Stores k [] = ⊥
Stores k (x ∷ xs) = (x ≡ k) ⊎ Stores k xs

pub Stores-first_row :
    (p : ApiKey → Bool) (k : ApiKey) (xs : List ApiKey)
    → first_row (filter p xs) ≡ some k
    → Stores k xs
unfolding filter
Stores-first_row p k [] e = cc
Stores-first_row p k (x ∷ xs) e = elim (Bool-cases (p x)) [
  | inl picked ↦ inl (ground (arith, e, picked))
  | inr passed ↦ inr (Stores-first_row p k xs (ground (arith, e, passed)))
]

module _ (hash_token : String → String) where
  -- An account that a session gives: the session stands under the token's hash and has not ended,
  -- and the account is there and enabled.
  abbrev pub HasSession : String → ℕ → Database → Account → Type 0
  HasSession token now db a =
      (s : Session) × (row : AccountRow) × (token ≢ "")
      × (lookup (hash_token token) db.sessions ≡ some s)
      × (now < s.expires_at)
      × (find_account s.account_id db.accounts ≡ some row)
      × (row.disabled_at ≡ none)
      × (a ≡ account_of row)

  pub by_session-some :
      (token : String) (now : ℕ) (db : Database) (a : Account)
      → (by_session hash_token token now db).0 ≡ some a
      → HasSession token now db a
  unfolding by_session
  by_session-some token now db a e =
      let named : token ≢ "" = λ blank. absurd (ground (arith, e, blank)) in
      let found : session_account hash_token now (lookup (hash_token token) db.sessions) db
          ≡ some a =
        ground (arith, e, named) in
      elim (Option-cases (lookup (hash_token token) db.sessions)) [
        | inl absent ↦ absurd (ground (arith, found, absent))
        | inr (s, here) ↦
            let running : now < s.expires_at = ground (arith, found, here) in
            let open_account : enabled (find_account s.account_id db.accounts) ≡ some a =
              ground (arith, found, here) in
            let (row, stands, live, same) = enabled-some _ a open_account in
            (s, row, named, here, running, stands, live, same)
      ]

  -- An account that a key gives: the key is stored by its hash and was not revoked, and the
  -- account is there and enabled.
  abbrev pub HasKey : String → Database → Account → Type 0
  HasKey key db a =
      (k : ApiKey) × (row : AccountRow) × (key ≢ "")
      × Stores k db.api_keys
      × (k.token_hash ≡ hash_token key)
      × (k.revoked_at ≡ none)
      × (find_account k.account_id db.accounts ≡ some row)
      × (row.disabled_at ≡ none)
      × (a ≡ account_of row)

  pub by_api_key-some :
      (key : String) (now : ℕ) (db : Database) (a : Account)
      → (by_api_key hash_token key now db).0 ≡ some a
      → HasKey key db a
  unfolding by_api_key
  by_api_key-some key now db a e =
      let h = hash_token key in
      let rows = filter (live_key hash_token h) db.api_keys in
      let named : key ≢ "" = λ blank. absurd (ground (arith, e, blank)) in
      let found : key_account hash_token (first_row rows) db ≡ some a = ground (arith, e, named) in
      elim (Option-cases (first_row rows)) [
        | inl absent ↦ absurd (ground (arith, found, absent))
        | inr (k, here) ↦
            let live =
              first_row-All _ k rows (filter-All_self (live_key hash_token h) db.api_keys) here in
            let open_account : enabled (find_account k.account_id db.accounts) ≡ some a =
              ground (arith, found, here) in
            let (row, stands, on, same) = enabled-some _ a open_account in
            (
              k,
              row,
              named,
              Stores-first_row (live_key hash_token h) k db.api_keys here,
              ground (arith, live),
              ground (arith, live),
              stands,
              on,
              same,
            )
      ]
