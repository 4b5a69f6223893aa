-- ===== src/Keys/Access.antt =====
-- Which keys `validate` accepts, and what `revoke` does to them.
use looma.Base.{
  if◌then◌else◌, Bool-cases, Option-cases, ◌==◌, contains, string_eq, nat_eq, length, String, ◌≡◌,
  ◌∙◌, ◌≢◌, ◌⊎◌, inl, inr, true, false, not, ◌&&◌, ◌||◌, Option, none, some, arith,
}
use looma.Base.Dict.{lookup-insert, insert, lookup}
use looma.Keys.{revoke, is_full, decode_key, validate, KeyStore, admit, Payload, JoinKey}

admit-some :
    (node_id : String) (k : JoinKey) (s : KeyStore) {secret : String}
    → (admit node_id k s).0 ≡ some secret
    → (secret ≡ k.secret)
      × ((node_id ≡ "")
          ⊎ (contains k.nodes node_id ≡ true)
          ⊎ (is_full k.max_nodes (length k.nodes) ≡ false))
unfolding admit
admit-some node_id k s e = ground (arith, e)

module _ (read_body : String → Option Payload) where
  -- Why a key string opens the door: it is the master token, or it names a key that is not
  -- revoked, carries that key's secret, and leaves the key a place for the machine.
  abbrev pub Opens : String → String → KeyStore → String → Type 0
  Opens presented node_id s secret =
      ((s.master_token ≢ "") × (presented ≡ s.master_token) × (secret ≡ s.master_token))
      ⊎ ((p : Payload) × (k : JoinKey) × (decode_key read_body presented ≡ some p)
          × (lookup p.key_id s.keys ≡ some k)
          × (k.revoked ≡ false)
          × (p.secret ≡ k.secret)
          × (secret ≡ k.secret)
          × ((node_id ≡ "")
              ⊎ (contains k.nodes node_id ≡ true)
              ⊎ (is_full k.max_nodes (length k.nodes) ≡ false)))

  -- A key string that is accepted is the master token, which must be set, or it names a key that
  -- is not revoked, carries that key's secret, and leaves the key a place for the machine; what is
  -- answered is the secret of what was named.
  pub validate-Opens :
      (presented node_id : String) (s : KeyStore) (secret : String)
      → (validate read_body presented node_id s).0 ≡ some secret
      → Opens presented node_id s secret
  unfolding validate
  validate-Opens presented node_id s secret e =
      elim (Bool-cases (not (s.master_token == "") && presented == s.master_token)) [
        | inl master ↦ inl (ground (arith, e, master))
        | inr keyed ↦ elim (Option-cases (decode_key read_body presented)) [
          | inl malformed ↦ absurd (ground (arith, e, keyed, malformed))
          | inr (p, parsed) ↦ elim (Option-cases (lookup p.key_id s.keys)) [
            | inl unknown ↦ absurd (ground (arith, e, keyed, parsed, unknown))
            | inr (k, found) ↦
                let live : k.revoked ≡ false = ground (arith, e, keyed, parsed, found) in
                let same : p.secret ≡ k.secret = ground (arith, e, keyed, parsed, found) in
                let admitted : (admit node_id k s).0 ≡ some secret =
                  ground (arith, e, keyed, parsed, found) in
                let (given, place) = admit-some node_id k s admitted in
                inr (p, k, parsed, found, live, same, given, place)
          ]
        ]
      ]

  -- What `validate` answers to a key string, by the entry that it names.
  abbrev answer : String → Payload → Option JoinKey → Option String
  answer node_id p none = none
  answer node_id p (some k) =
      if k.revoked
      then none
      else if k.secret == p.secret
      then (if node_id == "" || contains k.nodes node_id
          then some k.secret
          else if is_full k.max_nodes (length k.nodes)
          then none
          else some k.secret)
      else none

  validate_lem :
      (presented node_id : String) (s : KeyStore) (p : Payload)
      → decode_key read_body presented ≡ some p
      → presented ≢ s.master_token
      → (validate read_body presented node_id s).0 ≡ answer node_id p (lookup p.key_id s.keys)
  unfolding validate
  validate_lem presented node_id s p parsed other = ground (arith, parsed, other)

  revoke_lem :
      (id : String) (s : KeyStore)
      → (revoke id s).0 ≡ true
      → (k : JoinKey) × ((revoke id s).1.keys ≡ insert id (record k { revoked = true }) s.keys)
        × ((revoke id s).1.master_token ≡ s.master_token)
  unfolding revoke
  revoke_lem id s done = elim (Option-cases (lookup id s.keys)) [
    | inl absent ↦ absurd (ground (arith, done, absent))
    | inr (k, found) ↦ (k, ground (arith, found), ground (arith, found))
  ]

  -- After a revocation that found its key, no string that names the key is accepted, the master
  -- token aside; and a string that names another key is answered as before.
  pub revoke-shuts :
      (id presented node_id : String) (s : KeyStore) (p : Payload)
      → (revoke id s).0 ≡ true
      → decode_key read_body presented ≡ some p
      → (presented ≢ s.master_token)
      → (p.key_id ≡ id → (validate read_body presented node_id (revoke id s).1).0 ≡ none)
        × (p.key_id ≢ id
            → (validate read_body presented node_id (revoke id s).1).0
              ≡ (validate read_body presented node_id s).0)
  revoke-shuts id presented node_id s p done parsed other =
      let (k, kept, master) = revoke_lem id s done in
      let after = validate_lem presented node_id (revoke id s).1 p parsed (rw master other) in
      let before = validate_lem presented node_id s p parsed other in
      let stored = lookup-insert p.key_id id (record k { revoked = true }) s.keys in
      (
        λ same. after ∙ rw kept (rw stored (ground (arith, same))),
        λ differ. after ∙ rw kept (rw stored (ground (arith, differ, before))),
      )
