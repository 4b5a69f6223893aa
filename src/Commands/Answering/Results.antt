-- ===== src/Commands/Answering/Results.antt =====
-- A result on its way from `_send_result` of agent/looma_agent/control/tasks.py to `collect` of
-- src/looma/orchestrator/agents.py.
use looma.Commands.Answering.Trip.{concat}
use mathlib.Core.List.{append_assoc}
use looma.Base.{
  All, if◌then◌else◌, Result, ok, err, ◌==◌, string_eq, nat_eq, ℕ, String, ◌≡◌, refl, ap, ◌∙◌,
  Option, none, some, List, [], ◌∷◌, ◌++◌, arith,
}
use looma.Base.Dict.{lookup, lookup-insert}
use looma.Hub.{AgentError, said}
use looma.Hub.Channels.{
  outcome, result_key, take_chunk, Waiter, on_result_chunk, end_result, Channels,
}
use looma.Commands.Answering.{Reading, send_result, send_chunks, ResultChunk}

-- The chunks of one result come in.
abbrev pub chunks_in : List ResultChunk → Channels → Channels
chunks_in [] c = c
chunks_in (k ∷ ks) c = chunks_in ks (on_result_chunk k c)

abbrev take_all : List ResultChunk → List ℕ × Waiter (List ℕ) → List ℕ × Waiter (List ℕ)
take_all [] entry = entry
take_all (k ∷ ks) entry = take_all ks (take_chunk k entry)

-- Every chunk is one of this result.
abbrev AreOf : String → String → List ResultChunk → Type 0
AreOf task_id name = All (λ (k : ResultChunk). (k.task_id ≡ task_id) × (k.name ≡ name))

chunks_in_entry :
    (task_id name : String) (ks : List ResultChunk) (c : Channels)
    (entry : List ℕ × Waiter (List ℕ))
    → AreOf task_id name ks
    → lookup (result_key task_id name) c.collecting ≡ some entry
    → lookup (result_key task_id name) (chunks_in ks c).collecting ≡ some (take_all ks entry)
unfolding on_result_chunk
chunks_in_entry task_id name [] c entry own at = at
chunks_in_entry task_id name (k ∷ ks) c entry ((task, file), own) at =
    chunks_in_entry task_id name ks (on_result_chunk k c) (take_chunk k entry) own put
  where
    same : result_key k.task_id k.name ≡ result_key task_id name
    same = ap (λ s. result_key s k.name) task ∙ ap (result_key task_id) file

    put :
        lookup (result_key task_id name) (on_result_chunk k c).collecting
        ≡ some (take_chunk k entry)
    put =
        rw (same, on_result_chunk)
          (rw (at, on_result_chunk)
            (ground (
              arith,
              lookup-insert (result_key task_id name) (result_key task_id name) (take_chunk k entry)
                  c.collecting,
            )))

-- What the caller of `collect` should get; an error with an empty text is none.
abbrev pub collected : List ℕ → Option String → Result AgentError (List ℕ)
collected whole none = ok whole
collected whole (some error) = if error == "" then ok whole else err (said error)

take_all-send_chunks :
    (task_id name : String) (ps : List (List ℕ)) (failure : Option String) (buffer : List ℕ)
    → (take_all (send_chunks task_id name ps failure) (buffer, none)).1
      ≡ some (collected (buffer ++ concat ps) failure)
unfolding send_chunks take_chunk
take_all-send_chunks task_id name [] none buffer = ground arith
take_all-send_chunks task_id name [] (some error) buffer = ground arith
take_all-send_chunks task_id name (p ∷ ps) failure buffer =
    take_all-send_chunks task_id name ps failure (buffer ++ p)
    ∙ ap (λ b. some (collected b failure)) (append_assoc buffer p (concat ps))

send_chunks-AreOf :
    (task_id name : String) (ps : List (List ℕ)) (failure : Option String)
    → AreOf task_id name (send_chunks task_id name ps failure)
unfolding send_chunks
send_chunks-AreOf task_id name [] none = ((refl, refl), tt)
send_chunks-AreOf task_id name [] (some error) = ((refl, refl), tt)
send_chunks-AreOf task_id name (p ∷ ps) failure =
    ((refl, refl), send_chunks-AreOf task_id name ps failure)

-- A result file that is read to its end arrives as it was, whatever pieces it is read in; one whose
-- reading fails does not arrive, and the caller has the error.
pub end_result-send_result :
    (task_id name node_id : String) (r : Reading) (c : Channels)
    → lookup (result_key task_id name) c.collecting ≡ some ([], none)
    → (end_result node_id task_id name (chunks_in (send_result task_id name (some r)) c)).1
      ≡ collected (concat r.pieces) r.failure
unfolding end_result send_result
end_result-send_result task_id name node_id r c at =
    rw
      (
        chunks_in_entry task_id name (send_chunks task_id name r.pieces r.failure) c ([], none)
            (send_chunks-AreOf task_id name r.pieces r.failure) at,
        end_result,
      )
      (ap (λ w. outcome node_id (some w)) (take_all-send_chunks task_id name r.pieces r.failure []))
