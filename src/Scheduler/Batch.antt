-- ===== src/Scheduler/Batch.antt =====
-- What `next_batch` chooses.
use looma.Scheduler.Invariant.{IsValid}
use looma.Base.Dict.{Dict, values}
use looma.Base.Filter.{filter-All_self}
use looma.Base.{
  if◌then◌else◌, string_eq, nat_eq, All, length, take, is_nil, sum_by, length-append, length-take,
  All-take, All-map_pred, ℕ, zero, suc, ◌≤◌, String, ◌≡◌, refl, ap, ◌∙◌, ◌≢◌, ◌↔◌, ◌⊎◌, false, not,
  List, [], ◌∷◌, ◌++◌, arith,
}
use looma.Scheduler.{
  take_fresh, prompt_length, take_loop, idle, done, alive, decode_batch, Sequence, Scheduler,
  next_batch, prefill,
}
use looma.Scheduler.Loop.{take_loop-starts, take_loop-tokens, take_loop-order}

-- The queue stays in order: a prefill batch is its front, and it alone leaves; in the other
-- phases nothing leaves.
pub next_batch-order :
    (s : Scheduler)
    → let ((phase, items), s') = next_batch s in
      ((phase ≡ prefill) × (items ++ s'.waiting ≡ s.waiting))
      ⊎ ((phase ≢ prefill) × (s'.waiting ≡ s.waiting))
unfolding next_batch
next_batch-order s =
    ground (arith, take_loop-order s.max_sequences s.max_batch_tokens s.waiting s.running [] 0)

-- No batch is larger than the places, and the prompts of a prefill batch fit into one step.
pub next_batch-size :
    (s : Scheduler)
    → IsValid s
    → let ((phase, items), s') = next_batch s in
      (length items ≤ s.max_sequences)
      × (phase ≡ prefill → sum_by prompt_length items ≤ s.max_batch_tokens)
unfolding next_batch
next_batch-size s v =
    let taken = (take_fresh s).taken in
    let running = (take_fresh s).running in
    ground (
      arith,
      v.fits,
      ap length (take_loop-order s.max_sequences s.max_batch_tokens s.waiting s.running [] 0),
      length-append taken (take_fresh s).left,
      take_loop-tokens s.max_sequences s.max_batch_tokens s.waiting s.running [] 0 v.short refl
          (omega arith),
      length-take s.max_sequences (alive running),
    )

-- A queue that is not empty is served at once, its oldest request first: under the invariant a
-- waiting request always has a place.
pub next_batch-serves_oldest :
    (s : Scheduler) (c : Sequence) (queue : List Sequence)
    → IsValid s
    → s.waiting ≡ c ∷ queue
    → let ((phase, items), s') = next_batch s in
      (phase ≡ prefill) × ((more : List Sequence) × (items ≡ c ∷ more))
unfolding next_batch
next_batch-serves_oldest s c queue v e =
    let fresh = take_loop s.max_sequences s.max_batch_tokens s.waiting s.running [] 0 in
    let order = take_loop-order s.max_sequences s.max_batch_tokens s.waiting s.running [] 0 in
    let some_taken : 1 ≤ length fresh.taken =
      take_loop-starts s.max_sequences s.max_batch_tokens s.waiting c queue s.running e
        (ground (arith, v.fits, e)) in
    oldest fresh.taken fresh.left (order ∙ e) some_taken
  where
    oldest :
        (taken left : List Sequence)
        → taken ++ left ≡ c ∷ queue
        → 1 ≤ length taken
        → ((if is_nil taken
              then decode_batch s.max_sequences (alive (take_fresh s).running)
              else (prefill, taken)).0
            ≡ prefill)
          × ((more : List Sequence) × ((if is_nil taken
                  then decode_batch s.max_sequences (alive (take_fresh s).running)
                  else (prefill, taken)).1
                ≡ c ∷ more))
    oldest [] left o h = absurd (omega arith)
    oldest (x ∷ more) left o h = (refl, (more, cc))

decode_batch_lem :
    (places : ℕ) (items : List Sequence)
    → ((decode_batch places items).1 ≡ take places items)
      × (((decode_batch places items).0 ≡ idle) ↔ (items ≡ []))
      × ((decode_batch places items).0 ≢ prefill)
decode_batch_lem zero [] = (refl, (λ h. refl, λ h. refl), λ h. cc)
decode_batch_lem (suc n) [] = (refl, (λ h. refl, λ h. refl), λ h. cc)
decode_batch_lem places (x ∷ items) = (refl, (λ h. cc, λ h. cc), λ h. cc)

take_loop_empty :
    (places limit : ℕ) (waiting : List Sequence) (running : Dict String Sequence)
    → waiting ≡ []
    → take_loop places limit waiting running [] 0
      ≡ record { taken = []; left = []; running = running }
unfolding take_loop
take_loop_empty places limit [] running e = refl
take_loop_empty places limit (x ∷ waiting) running e = cc

-- With an empty queue the step is a decode of the running requests that are not done, or idle if
-- there is none.
pub next_batch-decodes :
    (s : Scheduler)
    → s.waiting ≡ []
    → let ((phase, items), s') = next_batch s in
      (items ≡ take s.max_sequences (alive s.running))
      × All (λ r. done r ≡ false) items
      × ((phase ≡ idle) ↔ (alive s.running ≡ []))
      × (s'.running ≡ s.running)
unfolding next_batch
next_batch-decodes s e =
    let none_taken = take_loop_empty s.max_sequences s.max_batch_tokens s.waiting s.running e in
    let (items, idle_iff, _) = decode_batch_lem s.max_sequences (alive s.running) in
    rw (none_taken, next_batch)
      (
        items,
        rw items (
            All-take _ s.max_sequences (alive s.running) (
              All-map_pred _ _ (λ r h. ground arith) (alive s.running)
                (filter-All_self (λ item. not (done item)) (values s.running)))),
        idle_iff,
        refl,
      )
