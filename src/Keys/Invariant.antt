-- ===== src/Keys/Invariant.antt =====
-- A key is used by no more machines than it allows, and the file follows the memory.
use looma.Base.{
  if◌then◌else◌, Bool-cases, Option-cases, ◌==◌, contains, string_eq, nat_eq, length, length-append,
  ℕ, zero, suc, ◌+◌, ◌≤◌, String, ◌≡◌, refl, inl, inr, Bool, true, false, not, ◌&&◌, ◌||◌, Option,
  none, some, List, [], ◌∷◌, arith,
}
use looma.Base.Dict.{Entries-lookup, Entries-insert, lookup, insert, Dict, Entries}
use looma.Base.Int.{negsuc, pos, ℤ}
use looma.Base.Distinct.{Distinct-append, Distinct}
use looma.Keys.{
  decode_key, check_payload, with_node, check_secret, validate, save, revoke, open_store, issue,
  is_full, admit, Payload, KeyStore, JoinKey,
}

abbrev pub Allows : ℤ → ℕ → Type 0
Allows (pos zero) taken = Unit
Allows (pos (suc n)) taken = taken ≤ suc n
Allows (negsuc n) taken = taken ≡ 0

-- What holds of the key that stands under an id.
abbrev pub IsSound : String → JoinKey → Type 0
IsSound id k = (k.key_id ≡ id) × Allows k.max_nodes (length k.nodes) × Distinct k.nodes

pub record IsValid (s : KeyStore) : Type 0 where
  pub sound : Entries IsSound s.keys
  pub follows : s.has_path ≡ true → s.disk_works ≡ true → s.saved ≡ s.keys

save-IsValid : (s : KeyStore) → Entries IsSound s.keys → IsValid (save s)
unfolding save
save-IsValid s h = elim (Bool-cases (s.has_path && s.disk_works)) [
  | inl path ↦ rw (path, save) (record { sound = h; follows = λ _ _. refl })
  | inr memory ↦
      rw (memory, save)
        (record { sound = h; follows = λ p d. absurd (ground (arith, memory, p, d)) })
]

pub open_store-IsValid :
    (address master : String) (tls has_path : Bool) (keys : Dict String JoinKey)
    → Entries IsSound keys
    → IsValid (open_store address master tls has_path keys)
unfolding open_store
open_store-IsValid address master tls true keys h = record { sound = h; follows = λ _ _. refl }
open_store-IsValid address master tls false keys h = record { sound = tt; follows = λ p d. cc }

issue-IsValid :
    (id secret : String) (now : ℕ) (label : String) (max_nodes : ℤ) (s : KeyStore)
    → IsValid s
    → IsValid (issue id secret now label max_nodes s).1
unfolding issue
issue-IsValid id secret now label max_nodes s v =
    let key = (issue id secret now label max_nodes s).0 in
    save-IsValid (record s { keys = insert id key s.keys })
      (Entries-insert IsSound id key s.keys (refl, allows max_nodes, tt) v.sound)
  where
    allows : (m : ℤ) → Allows m 0
    allows (pos zero) = tt
    allows (pos (suc n)) = omega arith
    allows (negsuc n) = refl

revoke-IsValid : (id : String) (s : KeyStore) → IsValid s → IsValid (revoke id s).1
unfolding revoke
revoke-IsValid id s v = elim (Option-cases (lookup id s.keys)) [
  | inl absent ↦ rw (absent, revoke) v
  | inr (k, found) ↦
      let dead = record k { revoked = true } in
      rw (found, revoke)
        (save-IsValid (record s { keys = insert id dead s.keys })
          (Entries-insert IsSound id dead s.keys (Entries-lookup IsSound id k s.keys v.sound found)
            v.sound))
]

Allows-suc : (m : ℤ) (n : ℕ) → is_full m n ≡ false → Allows m (n + 1)
Allows-suc (pos zero) n h = tt
Allows-suc (pos (suc k)) n h = ground (arith, h)
Allows-suc (negsuc k) n h = cc

admit-IsValid :
    (node_id : String) (id : String) (k : JoinKey) (s : KeyStore)
    → IsValid s
    → lookup id s.keys ≡ some k
    → IsValid (admit node_id k s).1
unfolding admit
admit-IsValid node_id id k s v found =
    let (own, room, apart) = Entries-lookup IsSound id k s.keys v.sound found in
    elim (Bool-cases (node_id == "" || contains k.nodes node_id)) [
      | inl known ↦ rw (known, admit) v
      | inr new ↦ elim (Bool-cases (is_full k.max_nodes (length k.nodes))) [
        | inl full ↦ rw (new, full, admit) v
        | inr free ↦
            let key = with_node node_id k in
            rw (new, free, admit)
              (save-IsValid (record s { keys = insert k.key_id key s.keys })
                (Entries-insert IsSound k.key_id key s.keys
                  (
                    refl,
                    rw (length-append k.nodes (node_id ∷ []))
                        (Allows-suc k.max_nodes (length k.nodes) free),
                    Distinct-append k.nodes (node_id ∷ []) apart (refl, tt)
                        (ground (arith, new), tt),
                  )
                  v.sound))
      ]
    ]

-- The guards of `validate` in front of `admit`.
guarded :
    (revoked same : Bool) (s : KeyStore) (r : Option String × KeyStore)
    → IsValid s
    → IsValid r.1
    → IsValid (if revoked then (none, s) else if same then r else (none, s)).1
guarded true same s r v w = v
guarded false true s r v w = w
guarded false false s r v w = v

check_secret-IsValid :
    (node_id : String) (p : Payload) (o : Option JoinKey) (s : KeyStore)
    → IsValid s
    → lookup p.key_id s.keys ≡ o
    → IsValid (check_secret node_id p o s).1
check_secret-IsValid node_id p none s v e = v
check_secret-IsValid node_id p (some k) s v e =
    guarded k.revoked (k.secret == p.secret) s (admit node_id k s) v
      (admit-IsValid node_id p.key_id k s v e)

check_payload-IsValid :
    (node_id : String) (o : Option Payload) (s : KeyStore)
    → IsValid s
    → IsValid (check_payload node_id o s).1
check_payload-IsValid node_id none s v = v
check_payload-IsValid node_id (some p) s v =
    check_secret-IsValid node_id p (lookup p.key_id s.keys) s v refl

-- One call from outside, with the random values that it draws.
pub data Call : Type 0 where
  call_issue : String → String → ℕ → String → ℤ → Call
  call_revoke : String → Call
  call_validate : String → String → Call

module _ (read_body : String → Option Payload) where
  validate-IsValid :
      (presented node_id : String) (s : KeyStore)
      → IsValid s
      → IsValid (validate read_body presented node_id s).1
  unfolding validate
  validate-IsValid presented node_id s v =
      elim (Bool-cases (not (s.master_token == "") && presented == s.master_token)) [
        | inl master ↦ rw (master, validate) v
        | inr keyed ↦
            rw (keyed, validate)
              (check_payload-IsValid node_id (decode_key read_body presented) s v)
      ]

  unfoldable pub serve : Call → KeyStore → KeyStore
  serve (call_issue id secret now label max_nodes) s = (issue id secret now label max_nodes s).1
  serve (call_revoke id) s = (revoke id s).1
  serve (call_validate presented node_id) s = (validate read_body presented node_id s).1

  unfoldable pub handle_all : List Call → KeyStore → KeyStore
  unfolding serve
  handle_all [] s = s
  handle_all (c ∷ cs) s = handle_all cs (serve c s)

  -- Whatever is called, from a store that was opened on sound keys: no key is used by more
  -- machines than it allows, no machine is counted twice for a key, every key stands under its own
  -- id, and a store with a path has all of this on disk if its writes succeed. If they fail, what is
  -- said of the memory still holds, but the file is older.
  pub handle_all-IsValid : (cs : List Call) (s : KeyStore) → IsValid s → IsValid (handle_all cs s)
  unfolding handle_all
  handle_all-IsValid [] s v = v
  handle_all-IsValid (call_issue id secret now label m ∷ cs) s v =
      handle_all-IsValid cs _ (issue-IsValid id secret now label m s v)
  handle_all-IsValid (call_revoke id ∷ cs) s v = handle_all-IsValid cs _ (revoke-IsValid id s v)
  handle_all-IsValid (call_validate presented node_id ∷ cs) s v =
      handle_all-IsValid cs _ (validate-IsValid presented node_id s v)
