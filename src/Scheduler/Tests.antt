-- ===== src/Scheduler/Tests.antt =====
-- Runs of the scheduler, and its theorems at concrete requests.
use looma.Base.{
  ok, err, string_eq, nat_eq, ℕ, ◌+◌, ◌≤◌, String, ◌≡◌, refl, ◌≢◌, ◌⊎◌, none, List, [], ◌∷◌, ◌++◌,
  arith,
}
use looma.Base.Dict.{lookup, insert, erase}
use looma.Base.Filter.{filter}
use looma.Base.Int.{pos, negsuc}
use looma.Scheduler.{
  Sequence, Scheduler, no_places, add, finish, accepted, snapshot, computed, prompt_length, emit,
  init, next_batch, prefill, decode, idle, done,
}
use looma.Scheduler.Invariant.{
  IsValid, Call, call_add, call_finish, call_accepted, call_next_batch, serve_all,
  serve_all-IsValid,
}
use looma.Scheduler.Batch.{next_batch-order, next_batch-serves_oldest}
use looma.Scheduler.Places.{snapshot-places}

abbrev request : String → List ℕ → ℕ → Sequence
request id prompt max_tokens = record {
  request_id = id;
  prompt_ids = prompt;
  output_ids = [];
  temperature = 0;
  top_p = 1_000_000;
  max_tokens = max_tokens;
  seed = none;
}

abbrev first : Sequence
first = request "a" (1 ∷ 2 ∷ []) 2

abbrev second : Sequence
second = request "b" (3 ∷ []) 4

abbrev third : Sequence
third = request "c" (4 ∷ 5 ∷ 6 ∷ []) 4

-- One runs and two wait, with two prompt tokens in a step at most.
abbrev busy : Scheduler
busy = record {
  max_sequences = 3;
  max_batch_tokens = 2;
  waiting = second ∷ first ∷ [];
  running = ("c", third) ∷ [];
}

abbrev resting : Scheduler
resting = record busy { waiting = [] }

calls : List Call
calls =
    call_add first
    ∷ call_add second
    ∷ call_add third
    ∷ call_next_batch
    ∷ call_accepted 7 "a"
    ∷ call_finish "b"
    ∷ []

runs : serve_all calls (init (pos 2) (pos 3)) ≡ record {
  max_sequences = 2;
  max_batch_tokens = 3;
  waiting = [];
  running = ("a", record first { output_ids = 7 ∷ [] }) ∷ [];
}
unfolding serve_all calls init add finish accepted next_batch string_eq filter lookup insert erase
runs = refl

splits_by_tokens : (next_batch busy).0 ≡ (prefill, second ∷ [])
unfolding next_batch string_eq insert
splits_by_tokens = refl

decodes : (next_batch resting).0 ≡ (decode, third ∷ [])
unfolding next_batch filter done
decodes = refl

rests : (next_batch (init (negsuc 3) (pos 0))).0 ≡ (idle, [])
unfolding next_batch init filter
rests = refl

counts : computed (emit 9 (emit 8 first)) ≡ 3
unfolding computed
counts = refl

busy-IsValid : IsValid busy
unfolding lookup
busy-IsValid = record {
  has_place = omega arith;
  fits = omega arith;
  short = omega arith;
  unique = (refl, tt);
}

resting-IsValid : IsValid resting
unfolding lookup
resting-IsValid = record {
  has_place = omega arith;
  fits = omega arith;
  short = tt;
  unique = (refl, tt);
}

serve_all-IsValid_example : IsValid (serve_all calls (init (pos 2) (pos 3)))
serve_all-IsValid_example = serve_all-IsValid calls (pos 2) (pos 3)

next_batch-order_example :
    let ((phase, items), s') = next_batch busy in
    ((phase ≡ prefill) × (items ++ s'.waiting ≡ second ∷ first ∷ []))
    ⊎ ((phase ≢ prefill) × (s'.waiting ≡ second ∷ first ∷ []))
next_batch-order_example = next_batch-order busy

next_batch-serves_oldest_example :
    let ((phase, items), s') = next_batch busy in
    (phase ≡ prefill) × ((more : List Sequence) × (items ≡ second ∷ more))
next_batch-serves_oldest_example =
    next_batch-serves_oldest busy second (first ∷ []) busy-IsValid refl

snapshot-places_example :
    (left : ℕ) × ((snapshot busy).places ≡ pos left)
    × (left + (snapshot busy).waiting + (snapshot busy).running ≡ 3)
    × (1 ≤ left → prompt_length second ≤ 2 → (t : Scheduler) × (add second busy ≡ ok t))
    × (left ≡ 0 → prompt_length second ≤ 2 → add second busy ≡ err (no_places 3))
snapshot-places_example = snapshot-places second busy busy-IsValid
