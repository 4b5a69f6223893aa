-- ===== src/Scheduler.antt =====
-- The batch scheduler of a model stage, payloads/looma_stage/looma_stage/scheduler.py.
-- Every method runs under one lock, so a method is a function of the whole state. A request's
-- sampling parameters are carried and never read; they are in millionths.
pub mod Invariant
pub mod Loop
pub mod Batch
pub mod Places
mod Tests
use looma.Base.{
  ℕ, ◌+◌, ◌-◌, String, Bool, not, ◌&&◌, Option, List, [], ◌∷◌, ◌++◌, ltb, leb, if◌then◌else◌,
  Result, ok, err, ◌==◌, string_eq, length, take, is_nil, max,
}
use looma.Base.Dict.{Dict, lookup, insert, erase, values}
use looma.Base.Filter.{filter}
use looma.Base.Int.{ℤ, pos_part, sub_ℕ}

-- `Sequence`: one request as the stage knows it. A negative `max_tokens` acts as 0.
pub record Sequence : Type 0 where
  pub request_id : String
  pub prompt_ids : List ℕ
  pub output_ids : List ℕ
  pub temperature : ℕ
  pub top_p : ℕ
  pub max_tokens : ℕ
  pub seed : Option ℕ

-- `Sequence.computed`
unfoldable pub computed : Sequence → ℕ
computed s =
    if is_nil s.output_ids
    then length s.prompt_ids
    else length s.prompt_ids + length s.output_ids - 1

-- `Sequence.done`
unfoldable pub done : Sequence → Bool
done s = leb s.max_tokens (length s.output_ids)

abbrev pub prompt_length : Sequence → ℕ
prompt_length s = length s.prompt_ids

-- `Full`, with the numbers that its message names.
pub data Full : Type 0 where
  prompt_too_long : ℕ → ℕ → Full
  no_places : ℕ → Full

-- The fields of `Scheduler`.
pub record Scheduler : Type 0 where
  pub max_sequences : ℕ
  pub max_batch_tokens : ℕ
  pub waiting : List Sequence
  pub running : Dict String Sequence

-- `Scheduler.__init__`
pub init : ℤ → ℤ → Scheduler
init max_sequences max_batch_tokens = record {
  max_sequences = max 1 (pos_part max_sequences);
  max_batch_tokens = max 1 (pos_part max_batch_tokens);
  waiting = [];
  running = [];
}

-- `add`: the prompt's length is tested first, then the places.
pub add : Sequence → Scheduler → Result Full Scheduler
add request s =
    if ltb s.max_batch_tokens (prompt_length request)
    then err (prompt_too_long (prompt_length request) s.max_batch_tokens)
    else if leb s.max_sequences (length s.waiting + length s.running)
    then err (no_places s.max_sequences)
    else ok (record s { waiting = s.waiting ++ (request ∷ []) })

abbrev pub is_other : String → Sequence → Bool
is_other request_id item = not (item.request_id == request_id)

-- `finish`
pub finish : String → Scheduler → Option Sequence × Scheduler
finish request_id s = (
  lookup request_id s.running,
  record s {
    waiting = filter (is_other request_id) s.waiting;
    running = erase request_id s.running;
  },
)

abbrev pub emit : ℕ → Sequence → Sequence
emit token r = record r { output_ids = r.output_ids ++ (token ∷ []) }

-- `accepted`: the request object is shared, so its entry changes in place.
pub accepted : ℕ → String → Scheduler → Scheduler
accepted token request_id s = elim (lookup request_id s.running) [
  | Option.none ↦ s
  | Option.some r ↦ record s { running = insert request_id (emit token r) s.running }
]

-- What the loop of `_take_fresh` leaves: the items taken, those that wait on, and the running.
pub record Fresh : Type 0 where
  pub taken : List Sequence
  pub left : List Sequence
  pub running : Dict String Sequence

-- The loop of `_take_fresh` over `_waiting`; `taken` and `tokens` are its variables.
pub take_loop : ℕ → ℕ → List Sequence → Dict String Sequence → List Sequence → ℕ → Fresh
take_loop places limit [] running taken tokens = record {
  taken = taken;
  left = [];
  running = running;
}
take_loop places limit (candidate ∷ waiting) running taken tokens =
    let rest =
      take_loop places limit waiting (insert candidate.request_id candidate running)
        (taken ++ (candidate ∷ [])) (tokens + prompt_length candidate) in
    if not (is_nil taken) && ltb limit (tokens + prompt_length candidate)
    then record { taken = taken; left = candidate ∷ waiting; running = running }
    else if leb places (length running)
    then record { taken = taken; left = candidate ∷ waiting; running = running }
    else rest

-- `_take_fresh`
pub take_fresh : Scheduler → Fresh
unfolding take_loop
take_fresh s = take_loop s.max_sequences s.max_batch_tokens s.waiting s.running [] 0

-- The first component of `next_batch`: "prefill", "decode" or "".
pub data Phase : Type 0 where
  prefill decode idle : Phase

abbrev pub Chosen : Type 0
Chosen = Phase × List Sequence

abbrev pub alive : Dict String Sequence → List Sequence
alive running = filter (λ item. not (done item)) (values running)

abbrev pub decode_batch : ℕ → List Sequence → Chosen
decode_batch places items = if is_nil items then (idle, []) else (decode, take places items)

-- `next_batch`
pub next_batch : Scheduler → Chosen × Scheduler
unfolding take_fresh
next_batch s =
    let fresh = take_fresh s in
    let s' = record s { waiting = fresh.left; running = fresh.running } in
    (
      if is_nil fresh.taken
          then decode_batch s.max_sequences (alive fresh.running)
          else (prefill, fresh.taken),
      s',
    )

-- `snapshot`: how many wait, how many are counted, and the places left.
pub record Snapshot : Type 0 where
  pub waiting : ℕ
  pub running : ℕ
  pub places : ℤ

pub snapshot : Scheduler → Snapshot
snapshot s = record {
  waiting = length s.waiting;
  running = length s.running;
  places = sub_ℕ s.max_sequences (length s.waiting + length s.running);
}

-- `running`
pub running_of : String → Scheduler → Option Sequence
running_of request_id s = lookup request_id s.running
