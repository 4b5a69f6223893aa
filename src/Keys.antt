-- ===== src/Keys.antt =====
-- Join keys of the nodes, src/looma/orchestrator/keys.py.
-- The base64 and JSON of a key's body are a parameter, `read_body`; the random id and secret and
-- the time are arguments. `saved` is the file's content where the store has a path.
pub mod Invariant
pub mod Access
mod Tests
use looma.Base.{
  leb, if◌then◌else◌, ◌==◌, contains, string_eq, nat_eq, length, is_nil, ℕ, zero, suc, String, Bool,
  true, false, not, ◌&&◌, ◌||◌, Option, none, some, List, [], ◌∷◌, ◌++◌,
}
use looma.Base.Dict.{lookup, insert, Dict}
use text.Mathlib.Text.{starts_with}
use looma.Base.Int.{negsuc, pos, ℤ}

pub record JoinKey : Type 0 where
  pub key_id : String
  pub secret : String
  pub address : String
  pub label : String
  pub created_at : ℕ
  pub max_nodes : ℤ
  pub tls : Bool
  pub revoked : Bool
  pub nodes : List String

-- What a key string says.
pub record Payload : Type 0 where
  pub key_id : String
  pub secret : String
  pub address : String
  pub tls : Bool

pub record KeyStore : Type 0 where
  pub public_address : String
  pub tls : Bool
  pub has_path : Bool
  pub master_token : String
  pub keys : Dict String JoinKey
  pub saved : Dict String JoinKey
  pub disk_works : Bool

abbrev pub key_prefix : String
key_prefix = "looma_"

-- `decode_key`
pub decode_key : (String → Option Payload) → String → Option Payload
decode_key read_body key =
    if key == "" || not (starts_with key key_prefix) then none else read_body key

-- `KeyStore.__init__` and `_load`; `found` is what can be read of the file, which is nothing if there
-- is none, and the keys in front of the break if it is broken.
pub open_store : String → String → Bool → Bool → Dict String JoinKey → KeyStore
open_store public_address master_token tls has_path found = record {
  public_address = public_address;
  tls = tls;
  has_path = has_path;
  master_token = master_token;
  keys = if has_path then found else [];
  saved = found;
  disk_works = true;
}

-- `_save`. A write that fails leaves the file as it was and the memory changed; it raises, so the
-- caller gets no answer, whatever stands for the answer here.
pub save : KeyStore → KeyStore
save store =
    if store.has_path && store.disk_works then record store { saved = store.keys } else store

-- `issue`
pub issue : String → String → ℕ → String → ℤ → KeyStore → JoinKey × KeyStore
unfolding save
issue key_id secret now label max_nodes store =
    let key : JoinKey = record {
      key_id = key_id;
      secret = secret;
      address = store.public_address;
      label = label;
      created_at = now;
      max_nodes = max_nodes;
      tls = store.tls;
      revoked = false;
      nodes = [];
    } in
    (key, save (record store { keys = insert key_id key store.keys }))

-- `revoke`
pub revoke : String → KeyStore → Bool × KeyStore
unfolding save
revoke key_id store = elim (lookup key_id store.keys) [
  | none ↦ (false, store)
  | some key ↦ (
    true,
    save (record store { keys = insert key_id (record key { revoked = true }) store.keys }),
  )
]

-- `key.max_nodes and len(key.nodes) >= key.max_nodes`
abbrev pub is_full : ℤ → ℕ → Bool
is_full (pos zero) taken = false
is_full (pos (suc n)) taken = leb (suc n) taken
is_full (negsuc n) taken = true

abbrev pub with_node : String → JoinKey → JoinKey
with_node node_id key = record key { nodes = key.nodes ++ (node_id ∷ []) }

-- The tail of `validate`, for a key that was found, is valid and has the right secret.
pub admit : String → JoinKey → KeyStore → Option String × KeyStore
unfolding save
admit node_id key store =
    if node_id == "" || contains key.nodes node_id
    then (some key.secret, store)
    else if is_full key.max_nodes (length key.nodes)
    then (none, store)
    else (
      some key.secret,
      save (record store { keys = insert key.key_id (with_node node_id key) store.keys }),
    )

abbrev pub check_secret : String → Payload → Option JoinKey → KeyStore → Option String × KeyStore
check_secret node_id parsed none store = (none, store)
check_secret node_id parsed (some key) store =
    if key.revoked
    then (none, store)
    else if key.secret == parsed.secret
    then admit node_id key store
    else (none, store)

abbrev pub check_payload : String → Option Payload → KeyStore → Option String × KeyStore
check_payload node_id none store = (none, store)
check_payload node_id (some parsed) store =
    check_secret node_id parsed (lookup parsed.key_id store.keys) store

-- `validate`
pub validate : (String → Option Payload) → String → String → KeyStore → Option String × KeyStore
unfolding admit decode_key
validate read_body presented node_id store =
    if not (store.master_token == "") && presented == store.master_token
    then (some store.master_token, store)
    else check_payload node_id (decode_key read_body presented) store

-- `open_registration`
pub open_registration : KeyStore → Bool
open_registration store = store.master_token == "" && is_nil store.keys
