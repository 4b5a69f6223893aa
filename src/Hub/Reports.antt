-- ===== src/Hub/Reports.antt =====
-- What agents tell the hub, src/looma/orchestrator/agents.py. The clock, and what the module
-- `ipaddress` says of an address, are arguments.
pub mod Agreement
use looma.Base.{
  ltb, eqb, if◌then◌else◌, is_some, ◌==◌, contains, string_eq, nat_eq, length, ℕ, zero, suc, ◌+◌,
  String, Bool, true, false, not, ◌&&◌, ◌||◌, Option, none, some, List, [], ◌∷◌,
}
use looma.Base.Int.{ℤ}
use looma.Base.Dict.{lookup, insert, Dict}
use looma.Connectivity.{reachable_from}
use looma.Hub.{
  AgentHub, AgentSession, AgentNode, Hardware, TaskRecord, ResultFile, new_task, finished,
}
use looma.Hub.Tasks.{touch}

pub record TaskState : Type 0 where
  pub task_id : String
  pub state : String
  pub error : String
  pub exit_code : ℤ
  pub devices : List ℕ
  pub seconds : ℕ
  pub results : List ResultFile

abbrev pub or_text : String → String → String
or_text s t = if s == "" then t else s

abbrev pub or_results : List ResultFile → List ResultFile → List ResultFile
or_results [] old = old
or_results (r ∷ rs) old = r ∷ rs

-- What a report makes of the record.
unfoldable pub updated : TaskState → TaskRecord → TaskRecord
updated s t = record t {
  state = s.state;
  error = or_text s.error t.error;
  exit_code = s.exit_code;
  devices = s.devices;
  seconds = s.seconds;
  results = or_results s.results t.results;
}

-- `was != (record.state, len(record.results))`
abbrev pub changed : TaskRecord → TaskRecord → Bool
changed t t' = not (t.state == t'.state && eqb (length t.results) (length t'.results))

unfoldable pub apply_state : TaskState → TaskRecord → AgentHub → AgentHub
unfolding updated
apply_state s t h = record h {
  tasks = insert s.task_id (updated s t) h.tasks;
  dirty = h.dirty || changed t (updated s t);
}

-- `_adopt`
unfoldable pub adopted_task : String → String → ℕ → TaskRecord
adopted_task task_id node_id now = record (new_task task_id node_id [] now) { adopted = true }

-- `on_task_state`; no node is the empty text. `_adopt` puts in the record that is then updated.
unfoldable pub on_task_state : TaskState → String → ℕ → AgentHub → AgentHub
unfolding apply_state adopted_task
on_task_state s node_id now h = elim (lookup s.task_id h.tasks) [
  | some t ↦ apply_state s t h
  | none ↦
      if node_id == "" || is_some (lookup s.task_id h.released)
      then h
      else let t = adopted_task s.task_id node_id now in
        apply_state s t (touch (record h { tasks = insert s.task_id t h.tasks }))
]

-- The loop of `on_telemetry` over the tasks of a report.
unfoldable pub apply_all : List TaskState → String → ℕ → AgentHub → AgentHub
unfolding on_task_state
apply_all [] node_id now h = h
apply_all (s ∷ ss) node_id now h = apply_all ss node_id now (on_task_state s node_id now h)

abbrev pub grace : ℕ
grace = 90_000

-- The tasks let go less than the grace ago.
unfoldable pub recent : ℕ → Dict String ℕ → Dict String ℕ
recent now [] = []
recent now ((id, at) ∷ d) =
    let rest = recent now d in if ltb now (at + grace) then (id, at) ∷ rest else rest

-- The node has had time to report this task, and does not hold it.
unfoldable pub is_lost : ℕ → String → List String → TaskRecord → Bool
is_lost now node_id held t =
    t.node_id == node_id
    && not (finished t)
    && not (contains held t.task_id || ltb now (t.submitted_at + grace))

unfoldable pub as_gone : TaskRecord → TaskRecord
as_gone t = record t { state = "gone"; error = or_text t.error "узел больше не держит эту задачу" }

unfoldable pub lose : ℕ → String → List String → TaskRecord → TaskRecord
unfolding is_lost as_gone
lose now node_id held t = if is_lost now node_id held t then as_gone t else t

unfoldable pub lose_all : ℕ → String → List String → Dict String TaskRecord → Dict String TaskRecord
unfolding lose
lose_all now node_id held [] = []
lose_all now node_id held ((id, t) ∷ d) =
    (id, lose now node_id held t) ∷ lose_all now node_id held d

abbrev pub any_lost : ℕ → String → List String → Dict String TaskRecord → Bool
any_lost now node_id held [] = false
any_lost now node_id held ((id, t) ∷ d) = is_lost now node_id held t || any_lost now node_id held d

-- `_reconcile`
unfoldable pub reconcile : String → List String → ℕ → AgentHub → AgentHub
unfolding recent lose_all is_lost
reconcile node_id held now h = record h {
  released = recent now h.released;
  tasks = lose_all now node_id held h.tasks;
  dirty = h.dirty || any_lost now node_id held h.tasks;
}

pub record PeerReport : Type 0 where
  pub peer_id : String
  pub symmetric_nat : Bool
  pub visible_addrs : List String
  pub in_network : Bool
  pub direct : ℕ
  pub relayed : ℕ
  pub direct_share : ℕ
  pub link_rtt : ℕ
  pub relay_rtt : ℕ

pub record UpdateReport : Type 0 where
  pub state : String
  pub version : String
  pub error : String

pub record Telemetry : Type 0 where
  pub node_id : String
  pub gpus_total : ℕ
  pub gpus_free : ℕ
  pub tasks_running : ℕ
  pub env_cache_bytes : ℕ
  pub model_cache_bytes : ℕ
  pub disk_free_bytes : ℕ
  pub disk_total_bytes : ℕ
  pub vram_free_bytes : ℕ
  pub hardware : Option Hardware
  pub peer : PeerReport
  pub update : UpdateReport
  pub tasks : List TaskState

abbrev pub with_vram : ℕ → Hardware → Hardware
with_vram zero hardware = hardware
with_vram (suc n) hardware = record hardware { vram_free_bytes = suc n }

-- What is known of the cards: what the report says, else what the node said before.
abbrev pub hardware_of : Option Hardware → Option Hardware → ℕ → Option Hardware
hardware_of none none vram = none
hardware_of none (some old) vram = some (with_vram vram old)
hardware_of (some new) old vram = some (with_vram vram new)

abbrev pub ids_of : List TaskState → List String
ids_of [] = []
ids_of (s ∷ ss) = s.task_id ∷ ids_of ss

module _ (is_local : String → Option Bool) where
  -- The fields of the node that a report sets.
  unfoldable pub seen : Telemetry → ℕ → AgentNode → AgentNode
  seen r now node = record node {
    last_seen = now;
    gpus_total = r.gpus_total;
    gpus_free = r.gpus_free;
    tasks_running = r.tasks_running;
    env_cache_bytes = r.env_cache_bytes;
    hardware = hardware_of r.hardware node.hardware r.vram_free_bytes;
    model_cache_bytes = r.model_cache_bytes;
    disk_free_bytes = r.disk_free_bytes;
    disk_total_bytes = r.disk_total_bytes;
    peer_id = or_text r.peer.peer_id node.peer_id;
    symmetric_nat = r.peer.symmetric_nat;
    reachable = reachable_from is_local r.peer.visible_addrs;
    in_network = r.peer.in_network;
    visible_addrs = r.peer.visible_addrs;
    direct = r.peer.direct;
    relayed = r.peer.relayed;
    direct_share = r.peer.direct_share;
    link_rtt = r.peer.link_rtt;
    relay_rtt = r.peer.relay_rtt;
    update_state = r.update.state;
    update_version = r.update.version;
    update_error = r.update.error;
  }

  -- `on_telemetry`
  unfoldable pub on_telemetry : Telemetry → ℕ → AgentHub → AgentHub
  unfolding seen apply_all reconcile
  on_telemetry r now h = elim (lookup r.node_id h.sessions) [
    | none ↦ h
    | some session ↦
        let node = seen r now session.node in
        reconcile node.node_id (ids_of r.tasks) now (
          apply_all r.tasks node.node_id now
            (record h { sessions = insert r.node_id (record session { node = node }) h.sessions }))
  ]
