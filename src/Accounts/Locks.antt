-- ===== src/Accounts/Locks.antt =====
-- What disabling an account and changing its password end.
use looma.Base.Filter.{filter-All, filter}
use looma.Base.Dict.{NodupKeys, Dict, lookup}
use looma.Base.{
  Option-cases, is_some, ◌==◌, string_eq, nat_eq, All, ℕ, String, ◌≡◌, refl, ◌≢◌, inl, inr, Bool,
  true, false, Option, none, some, List, [], ◌∷◌, arith,
}
use looma.Accounts.{
  account_of, strip, Session, has_id, first_row, end_all_sessions, Database, update_where, sign_in,
  set_disabled, find_account, delete_where, AccountRow, Account,
}
use looma.Accounts.Tokens.{by_api_key, by_session}
use looma.Accounts.Rows.{by_api_key-some, by_session-some, first_row-All}

-- The rows after `set_disabled`.
abbrev IsLocked : ℕ → AccountRow → Type 0
IsLocked id row = row.id ≡ id → is_some row.disabled_at ≡ true

locked :
    (id now : ℕ) (rows : List AccountRow)
    → All
        (IsLocked id)
        (update_where (has_id id) (λ row. record row { disabled_at = some now }) rows)
unfolding update_where
locked id now [] = tt
locked id now (row ∷ rows) = (λ same. ground (arith, same), locked id now rows)

find_account-update_where :
    (id other : ℕ) (change : AccountRow → AccountRow) (rows : List AccountRow)
    → ((row : AccountRow) → (change row).id ≡ row.id)
    → id ≢ other
    → find_account other (update_where (has_id id) change rows) ≡ find_account other rows
unfolding find_account update_where filter
find_account-update_where id other change [] h ne = refl
find_account-update_where id other change (row ∷ rows) h ne =
    ground (arith, h row, ne, find_account-update_where id other change rows h ne)

not_locked : (id : ℕ) (row : AccountRow) → IsLocked id row → row.disabled_at ≡ none → row.id ≢ id
not_locked id row locked live = λ same. absurd (ground (arith, locked same, live))

found-IsLocked :
    (id : ℕ) (row : AccountRow) (p : AccountRow → Bool) (rows : List AccountRow)
    → All (IsLocked id) rows
    → first_row (filter p rows) ≡ some row
    → IsLocked id row
found-IsLocked id row p rows h e =
    first_row-All (IsLocked id) row (filter p rows) (filter-All (IsLocked id) p rows h) e

-- Sessions that a DELETE leaves.
lookup-delete_where :
    (which : Session → Bool) (h : String) (s : Session) (d : Dict String Session)
    → NodupKeys d
    → lookup h (delete_where which d) ≡ some s
    → which s ≡ false
unfolding delete_where lookup
lookup-delete_where which h s [] u e = cc
lookup-delete_where which h s ((j, t) ∷ d) u e =
    ground (arith, e, lookup-delete_where which h s d u.1)

shut :
    {id : ℕ} {a : Account} (n : ℕ) (rows : List AccountRow) (row : AccountRow)
    → find_account n rows ≡ some row
    → row.disabled_at ≡ none
    → a ≡ account_of row
    → All (IsLocked id) rows
    → a.id ≢ id
unfolding find_account
shut {id = id} n rows row stands live same h mine =
    not_locked id row (found-IsLocked id row (has_id n) rows h stands) live
      (ground (arith, same, mine))

module _ (lower : String → String) (verify_password : String → String → Option Bool)
    (needs_rehash : String → Bool) (hash_token : String → String) where
  sign_in-IsLocked :
      (id : ℕ) (email password rehashed : String) (db : Database) (a : Account)
      → All (IsLocked id) db.accounts
      → (sign_in lower verify_password needs_rehash email password rehashed db).0 ≡ some a
      → a.id ≢ id
  unfolding sign_in
  sign_in-IsLocked id email password rehashed db a h e =
      let p : AccountRow → Bool = λ row. lower row.email == lower (strip email) in
      elim (Option-cases (first_row (filter p db.accounts))) [
        | inl absent ↦ absurd (ground (arith, e, absent))
        | inr (row, here) ↦
            let free : row.disabled_at ≡ none = ground (arith, e, here) in
            let same : a ≡ account_of row = ground (arith, e, here) in
            let other = not_locked id row (found-IsLocked id row p db.accounts h here) free in
            λ mine. other (ground (arith, same, mine))
      ]

  -- In the state right after an account is disabled, every way in is shut to it, whatever password,
  -- session or key is shown and at whatever later time; the row of every other account stays.
  pub set_disabled-locks :
      (id other now later : ℕ) (email password rehashed token key : String) (db : Database)
      (a : Account)
      → let db' = set_disabled id true now db in
        ((sign_in lower verify_password needs_rehash email password rehashed db').0 ≡ some a
          → a.id ≢ id)
        × ((by_session hash_token token later db').0 ≡ some a → a.id ≢ id)
        × ((by_api_key hash_token key later db').0 ≡ some a → a.id ≢ id)
        × (id ≢ other → find_account other db'.accounts ≡ find_account other db.accounts)
  unfolding set_disabled end_all_sessions
  set_disabled-locks id other now later email password rehashed token key db a =
      let db' = set_disabled id true now db in
      let rows = locked id now db.accounts in
      (
        sign_in-IsLocked id email password rehashed db' a rows,
        λ e.
            let (s, row, _, _, _, stands, live, same) =
              by_session-some hash_token token later db' a e in
            shut s.account_id _ row stands live same rows,
        λ e.
            let (k, row, _, _, _, _, stands, live, same) =
              by_api_key-some hash_token key later db' a e in
            shut k.account_id _ row stands live same rows,
        find_account-update_where id other (λ row. record row { disabled_at = some now })
            db.accounts (λ row. refl),
      )
