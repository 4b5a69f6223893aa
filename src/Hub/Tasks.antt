-- ===== src/Hub/Tasks.antt =====
-- Tasks of the hub: submit, stop and release, src/looma/orchestrator/agents.py.
-- The new id, the clock and the digest of a file are arguments.
pub mod Outbox
use looma.Base.{
  ◌||◌, ltb, ◌&&◌, Bool, if◌then◌else◌, Result, ok, err, ◌==◌, string_eq, nat_eq, length, take,
  drop, is_nil, ℕ, zero, suc, max, String, true, false, Option, none, some, List, [], ◌∷◌, ◌++◌,
}
use looma.Base.Texts.{join}
use looma.Base.Dict.{lookup, insert, erase, Dict}
use looma.Placement.{Resources, Verdict, placed, refused}
use looma.Hub.{
  many, one, bad_message, EnvValue, AgentHub, AgentSession, AgentError, TaskRecord, new_task,
  ServerMessage, RunTask, InputFile, TaskGroup, send, no_task, holder_away, not_connected,
  takes_no_tasks, no_room, no_command, run_task, input_chunk, stop_task, release_task,
}
use looma.Hub.Placing.{choose_for_task}

-- `_touch`
abbrev pub touch : AgentHub → AgentHub
touch h = record h { dirty = true }

-- `_locate`
unfoldable pub locate : String → AgentHub → Result AgentError (TaskRecord × AgentSession)
locate task_id h = elim (lookup task_id h.tasks) [
  | none ↦ err (no_task task_id)
  | some t ↦ elim (lookup t.node_id h.sessions) [
    | none ↦ err (holder_away task_id t.node_id)
    | some session ↦ ok (t, session)
  ]
]

-- What a caller asks to run.
pub record Job : Type 0 where
  pub command : List String
  pub env : Dict String String
  pub timeout_s : ℕ
  pub serve_port : ℕ
  pub resources : Resources
  pub environment : Dict String EnvValue
  pub inputs : Dict String (List ℕ)

abbrev pub chunk_bytes : ℕ
chunk_bytes = 1048576

-- The loop over the offsets of one file. A chunk is not empty, so the length is enough fuel.
unfoldable pub chunks : ℕ → List ℕ → List (List ℕ)
chunks zero data_left = []
chunks (suc f) data_left =
    if is_nil data_left
    then []
    else take chunk_bytes data_left ∷ chunks f (drop chunk_bytes data_left)

abbrev pub chunk_messages : String → String → List (List ℕ) → List ServerMessage
chunk_messages task_id name [] = input_chunk task_id name [] true ∷ []
chunk_messages task_id name (c ∷ cs) =
    input_chunk task_id name c false ∷ chunk_messages task_id name cs

-- The chunks of every input, each file closed by an empty one that is marked as the last.
unfoldable pub input_messages : String → Dict String (List ℕ) → List ServerMessage
unfolding chunks
input_messages task_id [] = []
input_messages task_id ((name, bytes) ∷ inputs) =
    chunk_messages task_id name (chunks (length bytes) bytes) ++ input_messages task_id inputs

-- `environment or {"kind": "none"}`
abbrev pub or_plain : Dict String EnvValue → Dict String EnvValue
or_plain [] = ("kind", one "none") ∷ []
or_plain (e ∷ es) = e ∷ es

abbrev pub describe_all : (List ℕ → String) → Dict String (List ℕ) → List InputFile
describe_all digest [] = []
describe_all digest ((name, bytes) ∷ inputs) =
    record { name = name; size_bytes = length bytes; digest = digest bytes }
    ∷ describe_all digest inputs

-- The `RunTask` that the node is told.
abbrev pub run_message : (List ℕ → String) → String → Option TaskGroup → Job → RunTask
run_message digest task_id group job = record {
  command_id = join "run-" task_id;
  task_id = task_id;
  command = job.command;
  env = job.env;
  timeout_s = max 1 job.timeout_s;
  serve_port = job.serve_port;
  resources = job.resources;
  environment = or_plain job.environment;
  group = group;
  inputs = describe_all digest job.inputs;
}

-- `agent_pb2.Environment(**environment)`: another key, or a list for a text, raises.
abbrev pub is_field : String → EnvValue → Bool
is_field key (one text) = key == "kind" || key == "source" || key == "requirements"
is_field key (many texts) = key == "requirements"

abbrev pub are_fields : Dict String EnvValue → Bool
are_fields [] = true
are_fields ((key, value) ∷ rest) = is_field key value && are_fields rest

-- `agent_pb2.RunTask(...)` can be built: a number that does not fit into its field raises.
unfoldable pub is_message : Job → Bool
is_message job =
    are_fields job.environment
    && ltb job.timeout_s (4_294_967_296)
    && ltb job.serve_port (4_294_967_296)
    && ltb job.resources.gpus (4_294_967_296)
    && ltb job.resources.ram_bytes (18_446_744_073_709_551_616)
    && ltb job.resources.disk_bytes (18_446_744_073_709_551_616)

-- The record of a new task.
abbrev pub placed_task : Job → String → ℕ → String → TaskRecord
placed_task job task_id now node_id = record (new_task task_id node_id job.command now) {
  resources = some job.resources;
}

-- Several messages to one node, in order.
unfoldable pub send_all : String → List ServerMessage → AgentHub → AgentHub
unfolding send
send_all node_id [] h = h
send_all node_id (m ∷ ms) h = send_all node_id ms (send node_id m h)

-- The node that `submit` settles on.
unfoldable pub target : AgentHub → Resources → String → Result AgentError String
target h wanted node_id =
    if node_id == ""
    then elim (choose_for_task h wanted) [
      | placed id ↦ if id == "" then err (no_room none) else ok id
      | refused why ↦ err (no_room (some why))
    ]
    else elim (lookup node_id h.sessions) [
      | none ↦ err (not_connected node_id)
      | some session ↦
          if session.node.accepts_tasks
          then ok node_id
          else err (takes_no_tasks node_id session.node.refusal)
    ]

-- The new record, and what is sent for it.
unfoldable pub start :
    (List ℕ → String) → Job → String → ℕ → String → AgentHub → AgentHub × TaskRecord
unfolding send_all input_messages
start digest job task_id now node_id h =
    let t = placed_task job task_id now node_id in
    (
      send_all node_id
          (run_task (run_message digest task_id none job) ∷ input_messages task_id job.inputs)
          (touch (record h { tasks = insert task_id t h.tasks })),
      t,
    )

-- `submit`. The record stands in the table before the message is built, and stays if that raises.
unfoldable pub submit :
    (List ℕ → String)
    → Job
    → (node_id fresh : String) → ℕ
    → AgentHub
    → AgentHub × Result AgentError TaskRecord
unfolding start target is_message
submit digest job node_id fresh now h =
    if is_nil job.command then (h, err no_command) else elim (target h job.resources node_id) [
      | err e ↦ (h, err e)
      | ok id ↦
          let task_id = join "task-" fresh in
          let (h', t) = start digest job task_id now id h in
          if is_message job then (h', ok t) else (
            touch (record h { tasks = insert task_id (placed_task job task_id now id) h.tasks }),
            err bad_message,
          )
    ]

-- `stop`
unfoldable pub stop : String → String → AgentHub → AgentHub × Result AgentError TaskRecord
unfolding locate
stop task_id reason h = elim (locate task_id h) [
  | err e ↦ (h, err e)
  | ok (t, session) ↦ (send t.node_id (stop_task (join "stop-" task_id) task_id reason) h, ok t)
]

-- What is left of the hub when a task is let go.
unfoldable pub let_go : String → ℕ → AgentHub → AgentHub
let_go task_id now h =
    touch (record h { tasks = erase task_id h.tasks; released = insert task_id now h.released })

-- `release`
unfoldable pub release : String → ℕ → AgentHub → AgentHub × Option AgentError
unfolding locate let_go
release task_id now h = elim (locate task_id h) [
  | err e ↦ (h, some e)
  | ok (t, session) ↦
      (let_go task_id now (send t.node_id (release_task (join "rel-" task_id) task_id) h), none)
]
