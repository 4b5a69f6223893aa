-- ===== src/Accounts/Tokens.antt =====
-- Sessions and API keys, the ways in that a token opens, of `Accounts` in
-- src/looma/accounts/store.py.
use looma.Base.Filter.{filter}
use looma.Base.Dict.{lookup, insert}
use looma.Base.{
  ltb, if◌then◌else◌, is_some, ◌==◌, string_eq, nat_eq, ℕ, ◌+◌, String, Bool, not, ◌&&◌, Option,
  none, some, [], ◌∷◌, ◌++◌,
}
use looma.Accounts.{
  first_row, update_where, session_ttl, enabled, find_account, Session, Database, ApiKey, Account,
}

module _ (hash_token : String → String) where
  -- `start_session`, with the drawn token.
  unfoldable pub start_session : ℕ → String → ℕ → Database → String × Database
  start_session account_id token now db =
      let session : Session = record {
        account_id = account_id;
        last_seen_at = now;
        expires_at = now + session_ttl;
      } in
      (token, record db { sessions = insert (hash_token token) session db.sessions })

  abbrev pub session_account : ℕ → Option Session → Database → Option Account
  session_account now none db = none
  session_account now (some s) db =
      if ltb now s.expires_at then enabled (find_account s.account_id db.accounts) else none

  abbrev pub touch : ℕ → String → Option Session → Database → Database
  touch now h none db = db
  touch now h (some s) db = record db {
    sessions = insert h (record s { last_seen_at = now }) db.sessions;
  }

  -- `by_session`
  unfoldable pub by_session : String → ℕ → Database → Option Account × Database
  unfolding find_account
  by_session token now db =
      if token == ""
      then (none, db)
      else (let h = hash_token token in
          let found = lookup h db.sessions in
          let account = session_account now found db in
          (account, if is_some account then touch now h found db else db))

  -- `issue_key`, with the id that the database gives, the drawn key and its hint.
  unfoldable pub issue_key : ℕ → ℕ → String → String → String → Database → ApiKey × Database
  issue_key id account_id key hint name db =
      let row : ApiKey = record {
        id = id;
        account_id = account_id;
        token_hash = hash_token key;
        hint = hint;
        name = name;
        last_used_at = none;
        revoked_at = none;
      } in
      (row, record db { api_keys = db.api_keys ++ (row ∷ []) })

  abbrev pub live_key : String → ApiKey → Bool
  live_key h k = k.token_hash == h && not (is_some k.revoked_at)

  abbrev pub key_account : Option ApiKey → Database → Option Account
  key_account none db = none
  key_account (some k) db = enabled (find_account k.account_id db.accounts)

  -- `by_api_key`
  unfoldable pub by_api_key : String → ℕ → Database → Option Account × Database
  unfolding find_account update_where
  by_api_key key now db =
      if key == ""
      then (none, db)
      else (let h = hash_token key in
          let account = key_account (first_row (filter (live_key h) db.api_keys)) db in
          let used =
            update_where (λ k. k.token_hash == h) (λ k. record k { last_used_at = some now })
              db.api_keys in
          (account, if is_some account then record db { api_keys = used } else db))
