-- ===== src/Hub/Channels.antt =====
-- What callers of the hub wait for, src/looma/orchestrator/agents.py. A future is `none` while it is
-- open; the new ids are arguments, and a wait that ends before an answer is one that timed out.
use looma.Base.{
  if◌then◌else◌, Result, ok, err, ◌>>=◌, ◌==◌, string_eq, nat_eq, ℕ, String, Bool, true, false, not,
  Option, none, some, List, [], ◌++◌,
}
use looma.Base.Texts.{join}
use looma.Base.Dict.{lookup, insert, erase, Dict}
use looma.Hub.{
  AgentHub, AgentError, send, not_connected, timed_out, said, fetch_logs, node_command,
  fetch_result, TunnelChunk,
}
use looma.Hub.Tasks.{locate}

abbrev pub Waiter : Type 0 → Type 0
Waiter A = Option (Result AgentError A)

-- One piece of a task's answer to a request.
pub record TaskResponse : Type 0 where
  pub command_id : String
  pub status : ℕ
  pub headers : Dict String String
  pub body : List ℕ
  pub error : String
  pub last : Bool

pub record ResultChunk : Type 0 where
  pub task_id : String
  pub name : String
  pub bytes : List ℕ
  pub last : Bool
  pub error : String

pub record Channels : Type 0 where
  pub pending_logs : Dict String (Waiter String)
  pub pending_acks : Dict String (Waiter (Unit {0}))
  pub collecting : Dict String (List ℕ × Waiter (List ℕ))
  pub serving : Dict String (List TaskResponse)
  pub tunnels : Dict String (List TunnelChunk)

abbrev pub no_channels : Channels
no_channels = record {
  pending_logs = [];
  pending_acks = [];
  collecting = [];
  serving = [];
  tunnels = [];
}

-- `_settle`: a future that is done stays as it is.
abbrev pub settle : {A : Type 0} → Result AgentError A → Waiter A → Waiter A
settle r none = some r
settle r (some old) = some old

-- How `wait_for` ends, for a future that was filed.
abbrev pub outcome : {A : Type 0} → String → Option (Waiter A) → Result AgentError A
outcome node_id none = err (timed_out node_id)
outcome node_id (some none) = err (timed_out node_id)
outcome node_id (some (some r)) = r

-- `logs`, up to the wait: the id of the command, and who is asked.
unfoldable pub ask_logs :
    (task_id : String)
    → ℕ
    → (fresh : String) → AgentHub
    → Channels
    → Result AgentError (AgentHub × Channels)
ask_logs task_id tail fresh h c = do
  (t, session) ← locate task_id h
  let id = join (join (join "log-" task_id) "-") fresh
  ok (
    send t.node_id (fetch_logs id task_id false tail) h,
    record c { pending_logs = insert id none c.pending_logs },
  )

-- `agent_logs`, up to the wait.
unfoldable pub ask_agent_logs :
    (node_id : String)
    → ℕ
    → (fresh : String) → AgentHub
    → Channels
    → Result AgentError (AgentHub × Channels)
ask_agent_logs node_id tail fresh h c = elim (lookup node_id h.sessions) [
  | none ↦ err (not_connected node_id)
  | some session ↦
      let id = join (join (join "agentlog-" node_id) "-") fresh in
      ok (
        send node_id (fetch_logs id "" true tail) h,
        record c { pending_logs = insert id none c.pending_logs },
      )
]

-- `on_logs`
unfoldable pub on_logs : (command_id text : String) → Channels → Channels
on_logs id text c = elim (lookup id c.pending_logs) [
  | none ↦ c
  | some w ↦ record c { pending_logs = insert id (settle (ok text) w) c.pending_logs }
]

-- The end of the wait in `logs` and `agent_logs`.
unfoldable pub end_logs :
    (node_id command_id : String) → Channels → Channels × Result AgentError String
end_logs node_id id c = (
  record c { pending_logs = erase id c.pending_logs },
  outcome node_id (lookup id c.pending_logs),
)

-- `node_command`, up to the wait.
unfoldable pub ask_node :
    (node_id action fresh : String) → AgentHub → Channels → Result AgentError (AgentHub × Channels)
ask_node node_id action fresh h c = elim (lookup node_id h.sessions) [
  | none ↦ err (not_connected node_id)
  | some session ↦
      let id = join (join (join (join (join "node-" action) "-") node_id) "-") fresh in
      ok (
        send node_id (node_command id action) h,
        record c { pending_acks = insert id none c.pending_acks },
      )
]

abbrev pub ack_result : Bool → String → Result AgentError (Unit {0})
ack_result true error = ok tt
ack_result false error = err (said (if error == "" then "узел отказал без объяснения" else error))

-- `on_ack`
unfoldable pub on_ack : (command_id : String) → Bool → (error : String) → Channels → Channels
on_ack id agreed error c = elim (lookup id c.pending_acks) [
  | none ↦ c
  | some w ↦ record c {
    pending_acks = insert id (settle (ack_result agreed error) w) c.pending_acks;
  }
]

-- The end of the wait in `node_command`.
unfoldable pub end_node :
    (node_id command_id : String) → Channels → Channels × Result AgentError (Unit {0})
end_node node_id id c = (
  record c { pending_acks = erase id c.pending_acks },
  outcome node_id (lookup id c.pending_acks),
)

-- `f"{task_id}/{name}"`
unfoldable pub result_key : String → String → String
result_key task_id name = join (join task_id "/") name

-- `collect`, up to the wait.
unfoldable pub ask_result :
    (task_id name : String) → AgentHub → Channels → Result AgentError (AgentHub × Channels)
ask_result task_id name h c = do
  (t, session) ← locate task_id h
  ok (
    send t.node_id (fetch_result (join "get-" task_id) task_id name) h,
    record c { collecting = insert (result_key task_id name) ([], none) c.collecting },
  )

-- What a chunk does to the buffer and the future of one result.
unfoldable pub take_chunk : ResultChunk → List ℕ × Waiter (List ℕ) → List ℕ × Waiter (List ℕ)
take_chunk chunk (buffer, w) =
    let whole = buffer ++ chunk.bytes in
    if not chunk.last
    then (whole, w)
    else if chunk.error == ""
    then (whole, settle (ok whole) w)
    else (whole, settle (err (said chunk.error)) w)

-- `on_result_chunk`
unfoldable pub on_result_chunk : ResultChunk → Channels → Channels
unfolding take_chunk
on_result_chunk chunk c =
    let key = result_key chunk.task_id chunk.name in
    elim (lookup key c.collecting) [
      | none ↦ c
      | some entry ↦ record c { collecting = insert key (take_chunk chunk entry) c.collecting }
    ]

abbrev pub waiter_of : Option (List ℕ × Waiter (List ℕ)) → Option (Waiter (List ℕ))
waiter_of none = none
waiter_of (some (buffer, w)) = some w

-- The end of the wait in `collect`.
unfoldable pub end_result :
    (node_id task_id name : String) → Channels → Channels × Result AgentError (List ℕ)
end_result node_id task_id name c =
    let key = result_key task_id name in
    (
      record c { collecting = erase key c.collecting },
      outcome node_id (waiter_of (lookup key c.collecting)),
    )
