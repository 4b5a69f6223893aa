-- ===== src/Commands/Answering/Trip.antt =====
-- What a node answers, agent/looma_agent/control/tasks.py, is what the hub makes of it,
-- src/looma/orchestrator/agents.py.
use mathlib.Core.List.{append-nil, append_assoc}
use looma.Base.{
  if◌then◌else◌, Bool-cases, Option-cases, Result, ok, err, ◌==◌, ==-refl, string_eq, nat_eq, ℕ,
  String, ◌≡◌, refl, sym, ap, ◌∙◌, inl, inr, Bool, true, false, Option, none, some, List, [], ◌∷◌,
  ◌++◌, arith,
}
use looma.Base.Dict.{lookup, Dict, lookup-insert}
use looma.Base.Filter.{filter}
use looma.Hub.{AgentError, said}
use looma.Hub.Channels.{Channels, TaskResponse}
use looma.Hub.Requests.{
  Answer, no_answer, gather, on_task_response, end_request, with_body, with_head,
}
use looma.Commands.Answering.{
  Stream, silent, broken, stream, clean, respond, send_pieces, answer_request,
}

abbrev pub concat : List (List ℕ) → List ℕ
concat [] = []
concat (c ∷ cs) = c ++ concat cs

-- What a caller should get.
abbrev pub answer_of : Bool → Stream → Result AgentError Answer
answer_of false s = err (said "the task is not serving on this node")
answer_of true silent = err (said "the task closed the connection without answering")
answer_of true (broken error) = err (said error)
answer_of true (stream status headers pieces (some error)) = err (said error)
answer_of true (stream status headers pieces none) =
    ok (record { status = status; headers = clean headers; body = concat pieces })

-- An error says something.
abbrev pub IsSpoken : Stream → Type 0
IsSpoken silent = Unit
IsSpoken (broken error) = (error == "") ≡ false
IsSpoken (stream status headers pieces none) = Unit
IsSpoken (stream status headers pieces (some error)) = (error == "") ≡ false

module _ (id node_id : String) (status : ℕ) where
  abbrev result_of : Answer → List ℕ → Option String → Result AgentError Answer
  result_of whole body none = ok (record whole { body = body })
  result_of whole body (some error) = err (said error)

  abbrev SpeaksIf : Option String → Type 0
  SpeaksIf none = Unit
  SpeaksIf (some error) = (error == "") ≡ false

  gather-send_pieces :
      (first : Bool) (headers : Dict String String) (kept : List ℕ) (ps : List (List ℕ))
      (failure : Option String) (whole : Answer)
      → SpeaksIf failure
      → gather node_id first whole (send_pieces id status headers kept ps failure)
        ≡ result_of
            (with_head first (respond id status headers kept "" false) whole)
            (whole.body ++ (kept ++ concat ps))
            failure
  unfolding gather send_pieces
  gather-send_pieces true headers kept [] none whole speaks = ground (arith, append-nil kept)
  gather-send_pieces false headers kept [] none whole speaks = ground (arith, append-nil kept)
  gather-send_pieces first headers kept [] (some error) whole speaks = ground (arith, speaks)
  gather-send_pieces true headers kept (p ∷ ps) failure whole speaks =
      let answer = respond id status headers kept "" false in
      let whole' = with_body answer (with_head true answer whole) in
      rw (==-refl {A = String} "") (
        gather-send_pieces false [] p ps failure whole' speaks
        ∙ ap (λ b. result_of (with_head true answer whole) b failure)
            (append_assoc whole.body kept (p ++ concat ps)))
  gather-send_pieces false headers kept (p ∷ ps) failure whole speaks =
      let answer = respond id status headers kept "" false in
      let whole' = with_body answer (with_head false answer whole) in
      rw (==-refl {A = String} "") (
        gather-send_pieces false [] p ps failure whole' speaks
        ∙ ap (λ b. result_of (with_head false answer whole) b failure)
            (append_assoc whole.body kept (p ++ concat ps)))

abbrev is_empty : String → Bool
is_empty s = s == ""

not_serving_speaks : is_empty "the task is not serving on this node" ≡ false
unfolding string_eq
not_serving_speaks = refl

no_answer_speaks : is_empty "the task closed the connection without answering" ≡ false
unfolding string_eq
no_answer_speaks = refl

gather-answer_request :
    (id node_id : String) (serves : Bool) (s : Stream)
    → IsSpoken s
    → gather node_id true no_answer (answer_request id serves s) ≡ answer_of serves s
unfolding gather answer_request
gather-answer_request id node_id false s spoken = ground (arith, not_serving_speaks)
gather-answer_request id node_id true silent spoken = ground (arith, no_answer_speaks)
gather-answer_request id node_id true (broken error) spoken = ground (arith, spoken)
gather-answer_request id node_id true (stream status headers [] none) spoken = ground arith
gather-answer_request id node_id true (stream status headers [] (some error)) spoken =
    ground (arith, spoken)
gather-answer_request id node_id true (stream status headers (p ∷ ps) none) spoken =
    gather-send_pieces id node_id status true (clean headers) p ps none no_answer spoken
gather-answer_request id node_id true (stream status headers (p ∷ ps) (some error)) spoken =
    gather-send_pieces id node_id status true (clean headers) p ps (some error) no_answer spoken

-- The answers of many requests come in at the hub as they come.
abbrev pub answers_in : List TaskResponse → Channels → Channels
answers_in [] c = c
answers_in (r ∷ rs) c = answers_in rs (on_task_response r c)

abbrev pub is_for : String → TaskResponse → Bool
is_for id r = r.command_id == id

on_task_response_queue :
    (id : String) (r : TaskResponse) (c : Channels) (queue : List TaskResponse)
    → lookup id c.serving ≡ some queue
    → lookup id (on_task_response r c).serving
      ≡ some (if is_for id r then queue ++ r ∷ [] else queue)
unfolding on_task_response
on_task_response_queue id r c queue at = elim (Option-cases (lookup r.command_id c.serving)) [
  | inl unknown ↦
      rw (unknown, on_task_response)
        (elim (string_eq.dec r.command_id id) [
          | yes same ↦ absurd (ground (arith, same, at, unknown))
          | no differ ↦ ground (arith, at, differ)
        ])
  | inr (pieces, there) ↦
      let put = lookup-insert id r.command_id (pieces ++ r ∷ []) c.serving in
      rw (there, on_task_response)
        (elim (string_eq.dec r.command_id id) [
          | yes same ↦
              let found : queue ≡ pieces = ground (arith, same, at, there) in
              ground (arith, same, put, found)
          | no differ ↦ ground (arith, at, differ, put)
        ])
]

answers_in_queue :
    (id : String) (rs : List TaskResponse) (c : Channels) (queue : List TaskResponse)
    → lookup id c.serving ≡ some queue
    → lookup id (answers_in rs c).serving ≡ some (queue ++ filter (is_for id) rs)
unfolding filter
answers_in_queue id [] c queue at = at ∙ ap some (sym (append-nil queue))
answers_in_queue id (r ∷ rs) c queue at = elim (Bool-cases (is_for id r)) [
  | inl own ↦
      answers_in_queue id rs (on_task_response r c) (queue ++ r ∷ [])
        (ground (arith, own, on_task_response_queue id r c queue at))
      ∙ ground (arith, own, append_assoc queue (r ∷ []) (filter (is_for id) rs))
  | inr other ↦
      answers_in_queue id rs (on_task_response r c) queue
        (ground (arith, other, on_task_response_queue id r c queue at))
      ∙ ground (arith, other)
]

-- A request gets the whole answer of its task, or the error that the task's node met, however its
-- pieces mix with those of other requests on the way. An error that is sent is not the empty text.
pub end_request-answer_request :
    (id node_id : String) (serves : Bool) (s : Stream) (rs : List TaskResponse) (c : Channels)
    → IsSpoken s
    → lookup id c.serving ≡ some []
    → filter (is_for id) rs ≡ answer_request id serves s
    → (end_request node_id id (answers_in rs c)).1 ≡ answer_of serves s
unfolding end_request
end_request-answer_request id node_id serves s rs c spoken at own =
    rw (answers_in_queue id rs c [] at ∙ ap some own, end_request)
      (gather-answer_request id node_id serves s spoken)
