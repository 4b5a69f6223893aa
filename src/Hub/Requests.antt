-- ===== src/Hub/Requests.antt =====
-- Requests to a task's server and tunnels to its ports, src/looma/orchestrator/agents.py. A wait on
-- a queue that has run dry is one that timed out.
use looma.Base.{
  eqb, if◌then◌else◌, Result, ok, err, ◌>>=◌, ◌==◌, string_eq, nat_eq, ℕ, String, Bool, true, false,
  not, ◌||◌, Option, none, some, List, [], ◌∷◌, ◌++◌,
}
use looma.Base.Texts.{join}
use looma.Base.Dict.{lookup, insert, erase, Dict}
use looma.Hub.{
  ServerMessage, AgentHub, AgentError, send, timed_out, said, task_request, tunnel_open,
  tunnel_chunk, TunnelChunk,
}
use looma.Hub.Tasks.{locate}
use looma.Hub.Channels.{Channels, TaskResponse}

-- `request_stream`, up to its loop.
unfoldable pub ask_task :
    (task_id method path : String)
    → List ℕ
    → (fresh : String) → AgentHub
    → Channels
    → Result AgentError (AgentHub × Channels)
ask_task task_id method path body fresh h c = do
  (t, session) ← locate task_id h
  let id = join "req-" fresh
  ok (
    send t.node_id (task_request id task_id method path body) h,
    record c { serving = insert id [] c.serving },
  )

-- `on_task_response`
unfoldable pub on_task_response : TaskResponse → Channels → Channels
on_task_response answer c = elim (lookup answer.command_id c.serving) [
  | none ↦ c
  | some pieces ↦ record c { serving = insert answer.command_id (pieces ++ answer ∷ []) c.serving }
]

-- A whole answer: the code, the headers and the body.
pub record Answer : Type 0 where
  pub status : ℕ
  pub headers : Dict String String
  pub body : List ℕ

-- What `request` has before the first piece.
abbrev pub no_answer : Answer
no_answer = record { status = 502; headers = []; body = [] }

-- The head of the first piece.
abbrev pub with_head : Bool → TaskResponse → Answer → Answer
with_head false answer whole = whole
with_head true answer whole = record whole { status = answer.status; headers = answer.headers }

abbrev pub with_body : TaskResponse → Answer → Answer
with_body answer whole = record whole { body = whole.body ++ answer.body }

-- The loop of `request_stream`, with what `request` makes of its pieces.
unfoldable pub gather :
    (node_id : String) → Bool → Answer → List TaskResponse → Result AgentError Answer
gather node_id started whole [] = err (timed_out node_id)
gather node_id started whole (answer ∷ answers) =
    let whole' = with_body answer (with_head started answer whole) in
    let rest = gather node_id false whole' answers in
    if not (answer.error == "")
    then err (said answer.error)
    else if answer.last
    then ok whole'
    else rest

-- `request`, once its pieces are in the queue.
unfoldable pub end_request :
    (node_id command_id : String) → Channels → Channels × Result AgentError Answer
unfolding gather
end_request node_id id c = (
  record c { serving = erase id c.serving },
  elim (lookup id c.serving) [
    | none ↦ err (timed_out node_id)
    | some pieces ↦ gather node_id true no_answer pieces
  ],
)

-- `open_tunnel`
unfoldable pub open_tunnel :
    (task_id : String)
    → (port : ℕ) → (fresh : String) → AgentHub
    → Channels
    → Result AgentError (AgentHub × Channels)
open_tunnel task_id port fresh h c = do
  (t, session) ← locate task_id h
  let id = join "c-" fresh
  ok (send t.node_id (tunnel_open id task_id port) h, record c { tunnels = insert id [] c.tunnels })

-- `on_tunnel_chunk`
unfoldable pub on_tunnel_chunk : TunnelChunk → Channels → Channels
on_tunnel_chunk chunk c = elim (lookup chunk.conn_id c.tunnels) [
  | none ↦ c
  | some inbox ↦ record c { tunnels = insert chunk.conn_id (inbox ++ chunk ∷ []) c.tunnels }
]

-- `Tunnel.recv`: the next bytes, none while nothing waits; no bytes are the end.
abbrev pub recv_from : List TunnelChunk → Option (List ℕ × List TunnelChunk)
recv_from [] = none
recv_from (chunk ∷ inbox) =
    some (if not (chunk.error == "") || chunk.last then [] else chunk.bytes, inbox)

-- What a tunnel sends goes to the session that it was opened on: once the node has a new one, the
-- queue of the old one has no reader.
unfoldable pub send_on : ℕ → (node_id : String) → ServerMessage → AgentHub → AgentHub
send_on serial node_id message h = elim (lookup node_id h.sessions) [
  | none ↦ h
  | some session ↦ if eqb session.serial serial then send node_id message h else h
]

-- `Tunnel.send`, on a tunnel that is open.
unfoldable pub send_through : ℕ → (node_id conn_id : String) → List ℕ → AgentHub → AgentHub
unfolding send_on
send_through serial node_id id bytes h =
    send_on serial node_id
      (tunnel_chunk (record { conn_id = id; bytes = bytes; last = false; error = "" })) h

-- `Tunnel.close`, on a tunnel that is open.
unfoldable pub close_tunnel :
    ℕ → (node_id conn_id : String) → AgentHub → Channels → AgentHub × Channels
unfolding send_on
close_tunnel serial node_id id h c = (
  send_on serial node_id
      (tunnel_chunk (record { conn_id = id; bytes = []; last = true; error = "" })) h,
  record c { tunnels = erase id c.tunnels },
)
