-- ===== src/Hub.antt =====
-- The orchestrator's half of the agent protocol, src/looma/orchestrator/agents.py: its records.
-- Times are in milliseconds, shares and processors in thousandths, text of errors is left out.
pub mod Placing
pub mod Tasks
pub mod Grouping
pub mod Ending
pub mod Reports
pub mod Channels
pub mod Requests
pub mod Storing
pub mod Gateway
pub mod Life
mod Tests
use looma.Base.{
  contains, string_eq, nat_eq, ℕ, String, Bool, false, Option, none, some, List, [], ◌∷◌, ◌++◌,
}
use looma.Base.Int.{pos, ℤ}
use looma.Base.Dict.{insert, lookup, Dict}
use looma.Placement.{Resources, Reason}

-- `AgentError`, with what its message names.
pub data AgentError : Type 0 where
  no_command : AgentError
  not_connected : (node_id : String) → AgentError
  takes_no_tasks : (node_id refusal : String) → AgentError
  no_room : Option Reason → AgentError
  no_members : AgentError
  wrong_description wrong_nodes : (size given : ℕ) → AgentError
  no_place : (member size : ℕ) → Option Reason → AgentError
  no_task : (task_id : String) → AgentError
  holder_away : (task_id node_id : String) → AgentError
  no_group : (group_id : String) → AgentError
  timed_out : (node_id : String) → AgentError
  said : (error : String) → AgentError
  bad_message : AgentError

pub record ResultFile : Type 0 where
  pub name : String
  pub size_bytes : ℕ
  pub digest : String

pub record TaskRecord : Type 0 where
  pub task_id : String
  pub node_id : String
  pub command : List String
  pub state : String
  pub error : String
  pub exit_code : ℤ
  pub devices : List ℕ
  pub seconds : ℕ
  pub results : List ResultFile
  pub submitted_at : ℕ
  pub resources : Option Resources
  pub group_id : String
  pub rank : ℕ
  pub adopted : Bool

-- The defaults of the fields of a `TaskRecord`.
abbrev pub new_task : String → String → List String → ℕ → TaskRecord
new_task task_id node_id command now = record {
  task_id = task_id;
  node_id = node_id;
  command = command;
  state = "pending";
  error = "";
  exit_code = pos 0;
  devices = [];
  seconds = 0;
  results = [];
  submitted_at = now;
  resources = none;
  group_id = "";
  rank = 0;
  adopted = false;
}

abbrev pub final_states : List String
final_states = "done" ∷ "failed" ∷ "cancelled" ∷ "gone" ∷ []

-- `TaskRecord.finished`
unfoldable pub finished : TaskRecord → Bool
finished t = contains final_states t.state

pub record GroupRecord : Type 0 where
  pub group_id : String
  pub label : String
  pub tasks : Dict ℕ String
  pub nodes : Dict ℕ String
  pub submitted_at : ℕ

pub record Hardware : Type 0 where
  pub num_gpus : ℕ
  pub vram_free_bytes : ℕ
  pub host_ram_bytes : ℕ

pub record AgentNode : Type 0 where
  pub node_id : String
  pub region : String
  pub agent_version : String
  pub hardware : Option Hardware
  pub accepts_tasks : Bool
  pub refusal : String
  pub environment_kinds : List String
  pub gpus_total : ℕ
  pub gpus_free : ℕ
  pub tasks_running : ℕ
  pub env_cache_bytes : ℕ
  pub model_cache_bytes : ℕ
  pub disk_free_bytes : ℕ
  pub disk_total_bytes : ℕ
  pub peer_id : String
  pub symmetric_nat : Bool
  pub reachable : Bool
  pub in_network : Bool
  pub visible_addrs : List String
  pub direct_share : ℕ
  pub direct : ℕ
  pub relayed : ℕ
  pub link_rtt : ℕ
  pub relay_rtt : ℕ
  pub update_state : String
  pub update_version : String
  pub update_error : String
  pub connected_at : ℕ
  pub last_seen : ℕ

pub record InputFile : Type 0 where
  pub name : String
  pub size_bytes : ℕ
  pub digest : String

pub record GroupMember : Type 0 where
  pub rank : ℕ
  pub node_id : String
  pub peer_id : String
  pub addrs : List String
  pub reachable : Bool
  pub relay_rtt : ℕ

pub record TaskGroup : Type 0 where
  pub group_id : String
  pub rank : ℕ
  pub members : List GroupMember

-- A value in the description of an environment, as JSON has it.
pub data EnvValue : Type 0 where
  one : String → EnvValue
  many : List String → EnvValue

pub record RunTask : Type 0 where
  pub command_id : String
  pub task_id : String
  pub command : List String
  pub env : Dict String String
  pub timeout_s : ℕ
  pub serve_port : ℕ
  pub resources : Resources
  pub environment : Dict String EnvValue
  pub group : Option TaskGroup
  pub inputs : List InputFile

pub record TunnelChunk : Type 0 where
  pub conn_id : String
  pub bytes : List ℕ
  pub last : Bool
  pub error : String

pub record TaskMessage : Type 0 where
  pub group_id : String
  pub from_rank : ℕ
  pub to_rank : ℕ
  pub body : List ℕ

pub record AgentRelease : Type 0 where
  pub version : String
  pub url : String
  pub sha256 : String
  pub signature : List ℕ

-- `ServerMessage`: what the orchestrator tells a node.
pub data ServerMessage : Type 0 where
  run_task : RunTask → ServerMessage
  input_chunk : (task_id name : String) → (bytes : List ℕ) → (last : Bool) → ServerMessage
  stop_task : (command_id task_id reason : String) → ServerMessage
  release_task : (command_id task_id : String) → ServerMessage
  fetch_logs : (command_id task_id : String) → (agent : Bool) → (tail_lines : ℕ) → ServerMessage
  node_command : (command_id action : String) → ServerMessage
  fetch_result : (command_id task_id name : String) → ServerMessage
  task_request : (command_id task_id method path : String) → (body : List ℕ) → ServerMessage
  tunnel_open : (conn_id task_id : String) → (port : ℕ) → ServerMessage
  tunnel_chunk : TunnelChunk → ServerMessage
  task_message : TaskMessage → ServerMessage
  release : AgentRelease → ServerMessage

-- `AgentSession`; `serial` is the identity of the object.
pub record AgentSession : Type 0 where
  pub serial : ℕ
  pub node : AgentNode
  pub outbox : List ServerMessage

pub record AgentHub : Type 0 where
  pub sessions : Dict String AgentSession
  pub tasks : Dict String TaskRecord
  pub groups : Dict String GroupRecord
  pub ready_groups : List String
  pub released : Dict String ℕ
  pub dirty : Bool
  pub closing : List ℕ

abbrev pub new_hub : AgentHub
new_hub = record {
  sessions = [];
  tasks = [];
  groups = [];
  ready_groups = [];
  released = [];
  dirty = false;
  closing = [];
}

-- `session.send`, where the session is that of a node.
unfoldable pub send : String → ServerMessage → AgentHub → AgentHub
send node_id message h = elim (lookup node_id h.sessions) [
  | none ↦ h
  | some session ↦ record h {
    sessions =
        insert node_id (record session { outbox = session.outbox ++ message ∷ [] }) h.sessions;
  }
]
