-- ===== src/Hub/Gateway.antt =====
-- The stream of one agent: `Attach` of src/looma/orchestrator/agents.py and its helpers. `serial` is
-- the identity of the new session; what the join key is worth is an argument.
pub mod Streams
use looma.Base.{
  eqb, if◌then◌else◌, ◌==◌, string_eq, nat_eq, ℕ, ◌+◌, String, Bool, true, false, Option, none,
  some, List, [], ◌∷◌,
}
use looma.Base.Texts.{join}
use looma.Base.Dict.{erase, lookup, keys, insert, Dict}
use looma.Releases.{Release, ReleaseStore, offer_to}
use looma.Hub.{
  AgentHub, AgentSession, AgentNode, AgentRelease, Hardware, ServerMessage, release, send,
}

pub record Register : Type 0 where
  pub node_id : String
  pub region : String
  pub agent_version : String
  pub join_key : String
  pub hardware : Hardware
  pub accepts_tasks : Bool
  pub refusal : String
  pub environment_kinds : List String
  pub peer_id : String

-- `_node_from`
unfoldable pub node_from : Register → ℕ → AgentNode
node_from r now = record {
  node_id = r.node_id;
  region = r.region;
  agent_version = r.agent_version;
  hardware = some r.hardware;
  accepts_tasks = r.accepts_tasks;
  refusal = r.refusal;
  environment_kinds = r.environment_kinds;
  gpus_total = r.hardware.num_gpus;
  gpus_free = r.hardware.num_gpus;
  tasks_running = 0;
  env_cache_bytes = 0;
  model_cache_bytes = 0;
  disk_free_bytes = 0;
  disk_total_bytes = 0;
  peer_id = r.peer_id;
  symmetric_nat = false;
  reachable = false;
  in_network = false;
  visible_addrs = [];
  direct_share = 0;
  direct = 0;
  relayed = 0;
  link_rtt = 0;
  relay_rtt = 0;
  update_state = "";
  update_version = "";
  update_error = "";
  connected_at = now;
  last_seen = now;
}

-- `_check_key`: the key store raised an error, or knows no secret, or gives one.
pub data KeyCheck : Type 0 where
  raised : (error : String) → KeyCheck
  unknown admitted : KeyCheck

module _ (bucket : String → ℕ) where
  abbrev pub message_for : String → Option Release → Option AgentRelease
  message_for base none = none
  message_for base (some r) = some (record {
    version = r.version;
    url = join (join (join base "/agent/release/") r.version) ".tar.gz";
    sha256 = r.sha256;
    signature = r.signature;
  })

  -- `_release_message`; no base is the empty text.
  unfoldable pub release_message : Option ReleaseStore → String → String → Option AgentRelease
  release_message none base node_id = none
  release_message (some store) base node_id =
      if base == "" then none else message_for base (offer_to bucket node_id store)

  -- The loop of `announce_release` over the nodes, with the count of those told.
  unfoldable pub announce_all : Option ReleaseStore → String → List String → AgentHub → AgentHub × ℕ
  announce_all releases base [] h = (h, 0)
  announce_all releases base (id ∷ ids) h = elim (release_message releases base id) [
    | none ↦ announce_all releases base ids h
    | some offer ↦
        let (h', told) = announce_all releases base ids (send id (release offer) h) in
        (h', told + 1)
  ]

  -- `announce_release`
  unfoldable pub announce_release : Option ReleaseStore → String → AgentHub → AgentHub × ℕ
  unfolding announce_all release_message
  announce_release releases base h = announce_all releases base (keys h.sessions) h

  pub record RegisterAck : Type 0 where
    pub agreed : Bool
    pub node_id : String
    pub offered : Option AgentRelease

  -- `Attach`, up to its loop: the acknowledgement, and the session of the node.
  -- `previous.closed.set()`: the sessions that were told to close.
  abbrev replaced : Option AgentSession → List ℕ → List ℕ
  replaced none closing = closing
  replaced (some previous) closing = previous.serial ∷ closing

  unfoldable pub attach :
      Option ReleaseStore
      → (base : String) → KeyCheck
      → Register
      → (serial now : ℕ) → AgentHub
      → AgentHub × RegisterAck
  unfolding node_from release_message
  attach releases base (raised error) r serial now h =
      (h, record { agreed = false; node_id = ""; offered = none })
  attach releases base unknown r serial now h =
      (h, record { agreed = false; node_id = ""; offered = none })
  attach releases base admitted r serial now h =
      let session : AgentSession = record {
        serial = serial;
        node = node_from r now;
        outbox = [];
      } in
      (
        record h {
          sessions = insert r.node_id session h.sessions;
          closing = replaced (lookup r.node_id h.sessions) h.closing;
        },
        record {
          agreed = true;
          node_id = r.node_id;
          offered = release_message releases base r.node_id;
        },
      )

-- The end of `Attach`: the session leaves the table if it still stands there.
unfoldable pub detach : (node_id : String) → (serial : ℕ) → AgentHub → AgentHub
detach node_id serial h = elim (lookup node_id h.sessions) [
  | none ↦ h
  | some session ↦
      if eqb session.serial serial then record h { sessions = erase node_id h.sessions } else h
]

-- One round of the loop of `Attach`: the oldest message of the session goes out.
unfoldable pub pull : (node_id : String) → AgentHub → Option ServerMessage × AgentHub
pull node_id h = elim (lookup node_id h.sessions) [
  | none ↦ (none, h)
  | some session ↦ elim session.outbox [
    | [] ↦ (none, h)
    | ◌∷◌ m ms ↦
        (some m, record h { sessions = insert node_id (record session { outbox = ms }) h.sessions })
  ]
]
