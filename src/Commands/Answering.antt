-- ===== src/Commands/Answering.antt =====
-- What a node answers, agent/looma_agent/control/tasks.py: a task's HTTP in pieces, and result files.
-- What the task's server and the disk give is an argument.
pub mod Results
pub mod Trip
use looma.Base.{
  ◌==◌, string_eq, nat_eq, ℕ, String, Bool, true, false, not, Option, none, some, List, [], ◌∷◌,
}
use looma.Base.Texts.{after_prefix}
use looma.Base.Dict.{Dict}
use looma.Base.Filter.{filter}
use looma.Hub.Channels.{ResultChunk}
use looma.Hub.Channels.{TaskResponse}

-- What `request_stream` of the task's channel gives: nothing, an error before the first piece, or the
-- head and the pieces of the body, which an error may cut off.
pub data Stream : Type 0 where
  silent : Stream
  broken : (error : String) → Stream
  stream :
      (status : ℕ)
      → (headers : Dict String String) → (pieces : List (List ℕ)) → (failure : Option String)
      → Stream

-- `k.lower() == "transfer-encoding"`
abbrev pub is_hop : String → Bool
is_hop name = elim (after_prefix "transfer-encoding" name) [ none ↦ false | some rest ↦ rest == "" ]

abbrev pub clean : Dict String String → Dict String String
clean = filter (λ entry. not (is_hop entry.0))

abbrev pub respond : String → ℕ → Dict String String → List ℕ → String → Bool → TaskResponse
respond id status headers body error last = record {
  command_id = id;
  status = status;
  headers = headers;
  body = body;
  error = error;
  last = last;
}

module _ (id : String) (status : ℕ) where
  -- How the loop over the pieces ends: with the piece that was kept back, or with the error.
  abbrev pub end_answer : Dict String String → List ℕ → Option String → List TaskResponse
  end_answer headers kept none = respond id status headers kept "" true ∷ []
  end_answer headers kept (some error) = respond id status [] [] error true ∷ []

  -- The loop, with one piece kept back: only what follows shows that a piece is the last.
  unfoldable pub send_pieces :
      Dict String String → List ℕ → List (List ℕ) → Option String → List TaskResponse
  send_pieces headers kept [] failure = end_answer headers kept failure
  send_pieces headers kept (p ∷ ps) failure =
      respond id status headers kept "" false ∷ send_pieces [] p ps failure

  -- The loop before its first piece.
  abbrev pub send_body : Dict String String → List (List ℕ) → Option String → List TaskResponse
  send_body headers [] failure = end_answer headers [] failure
  send_body headers (p ∷ ps) failure = send_pieces headers p ps failure

-- `_answer_request`; the port is `none` for a task that is not here or does not serve.
unfoldable pub answer_request : String → (serves : Bool) → Stream → List TaskResponse
unfolding send_pieces
answer_request id false s = respond id 503 [] [] "the task is not serving on this node" true ∷ []
answer_request id true silent =
    respond id 502 [] [] "the task closed the connection without answering" true ∷ []
answer_request id true (broken error) = respond id 502 [] [] error true ∷ []
answer_request id true (stream status headers pieces failure) =
    send_body id status (clean headers) pieces failure

-- What reading a result file gives: the pieces, which an error may cut off; nothing for a task that
-- is not here.
pub record Reading : Type 0 where
  pub pieces : List (List ℕ)
  pub failure : Option String

abbrev pub last_chunk : String → String → Option String → ResultChunk
last_chunk task_id name none = record {
  task_id = task_id;
  name = name;
  bytes = [];
  last = true;
  error = "";
}
last_chunk task_id name (some error) = record {
  task_id = task_id;
  name = name;
  bytes = [];
  last = true;
  error = error;
}

unfoldable pub send_chunks : String → String → List (List ℕ) → Option String → List ResultChunk
send_chunks task_id name [] failure = last_chunk task_id name failure ∷ []
send_chunks task_id name (p ∷ ps) failure =
    record { task_id = task_id; name = name; bytes = p; last = false; error = "" }
    ∷ send_chunks task_id name ps failure

-- `_send_result`
unfoldable pub send_result : String → String → Option Reading → List ResultChunk
unfolding send_chunks
send_result task_id name none = last_chunk task_id name (some "no such task on this node") ∷ []
send_result task_id name (some r) = send_chunks task_id name r.pieces r.failure
