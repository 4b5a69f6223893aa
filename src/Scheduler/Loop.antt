-- ===== src/Scheduler/Loop.antt =====
-- The loop of `_take_fresh`: what it takes, what it leaves, and where it stops.
use mathlib.Core.List.{append_assoc}
use looma.Base.{
  ◌<◌, ℕ, ◌+◌, ◌≤◌, ◌≡◌, refl, ◌≢◌, List, [], ◌∷◌, ◌++◌, arith, length, length-append, sum_by,
  sum_by-append, All, String, string_eq,
}
use looma.Base.Dict.{
  Dict, lookup, insert, length-insert_le, insert-NodupKeys, NodupKeys, lookup-insert,
}
use looma.Scheduler.{Sequence, take_loop, prompt_length}

module _ (places limit : ℕ) where
  -- What is taken is a prefix of the queue: the order of arrival is kept.
  pub take_loop-order :
      (waiting : List Sequence) (running : Dict String Sequence) (taken : List Sequence)
      (tokens : ℕ)
      → let fresh = take_loop places limit waiting running taken tokens in
        fresh.taken ++ fresh.left ≡ taken ++ waiting
  unfolding take_loop
  take_loop-order [] running taken tokens = refl
  take_loop-order (c ∷ waiting) running taken tokens = ground (
    arith,
    take_loop-order waiting (insert c.request_id c running) (taken ++ (c ∷ []))
        (tokens + prompt_length c),
    append_assoc taken (c ∷ []) waiting,
  )

  -- The places are never exceeded.
  pub take_loop-length :
      (waiting : List Sequence) (running : Dict String Sequence) (taken : List Sequence)
      (tokens : ℕ)
      → let fresh = take_loop places limit waiting running taken tokens in
        length running ≤ places
        → (length fresh.running ≤ places)
          × (length fresh.left + length fresh.running ≤ length waiting + length running)
  unfolding take_loop
  take_loop-length [] running taken tokens h = (h, omega arith)
  take_loop-length (c ∷ waiting) running taken tokens h = ground (
    arith,
    take_loop-length waiting (insert c.request_id c running) (taken ++ (c ∷ []))
        (tokens + prompt_length c),
    length-insert_le c.request_id c running,
  )

  -- The prompts taken fit into one step.
  pub take_loop-tokens :
      (waiting : List Sequence) (running : Dict String Sequence) (taken : List Sequence)
      (tokens : ℕ)
      → All (λ c. prompt_length c ≤ limit) waiting
      → tokens ≡ sum_by prompt_length taken
      → tokens ≤ limit
      → let fresh = take_loop places limit waiting running taken tokens in
        sum_by prompt_length fresh.taken ≤ limit
  unfolding take_loop
  take_loop-tokens [] running taken tokens short e h = omega arith
  take_loop-tokens (c ∷ waiting) running taken tokens short e h = ground (
    arith,
    take_loop-tokens waiting (insert c.request_id c running) (taken ++ (c ∷ []))
        (tokens + prompt_length c) short.1,
    sum_by-append prompt_length taken (c ∷ []),
  )

  pub take_loop-All_left :
      (P : Sequence → Type 0) (waiting : List Sequence) (running : Dict String Sequence)
      (taken : List Sequence) (tokens : ℕ)
      → All P waiting
      → All P (take_loop places limit waiting running taken tokens).left
  unfolding take_loop
  take_loop-All_left P [] running taken tokens h = tt
  take_loop-All_left P (c ∷ waiting) running taken tokens h = ground (
    arith,
    take_loop-All_left P waiting (insert c.request_id c running) (taken ++ (c ∷ []))
        (tokens + prompt_length c) h.1,
  )

  pub take_loop-NodupKeys :
      (waiting : List Sequence) (running : Dict String Sequence) (taken : List Sequence)
      (tokens : ℕ)
      → NodupKeys running
      → NodupKeys (take_loop places limit waiting running taken tokens).running
  unfolding take_loop
  take_loop-NodupKeys [] running taken tokens u = u
  take_loop-NodupKeys (c ∷ waiting) running taken tokens u = ground (
    arith,
    take_loop-NodupKeys waiting (insert c.request_id c running) (taken ++ (c ∷ []))
        (tokens + prompt_length c),
    insert-NodupKeys c.request_id c running u,
  )

  -- A running request that nothing in the queue shares its id with stays as it is.
  pub lookup-take_loop :
      (id : String) (waiting : List Sequence) (running : Dict String Sequence)
      (taken : List Sequence) (tokens : ℕ)
      → All (λ c. id ≢ c.request_id) waiting
      → lookup id (take_loop places limit waiting running taken tokens).running ≡ lookup id running
  unfolding take_loop
  lookup-take_loop id [] running taken tokens h = refl
  lookup-take_loop id (c ∷ waiting) running taken tokens h = ground (
    arith,
    h.0,
    lookup-take_loop id waiting (insert c.request_id c running) (taken ++ (c ∷ []))
        (tokens + prompt_length c) h.1,
    lookup-insert id c.request_id c running,
  )

  -- The loop does not lose what it has taken.
  pub take_loop-grows :
      (waiting : List Sequence) (running : Dict String Sequence) (taken : List Sequence)
      (tokens : ℕ)
      → length taken ≤ length (take_loop places limit waiting running taken tokens).taken
  unfolding take_loop
  take_loop-grows [] running taken tokens = omega arith
  take_loop-grows (c ∷ waiting) running taken tokens = ground (
    arith,
    take_loop-grows waiting (insert c.request_id c running) (taken ++ (c ∷ []))
        (tokens + prompt_length c),
    length-append taken (c ∷ []),
  )

  -- A free place is used for the front of the queue, however long its prompt is.
  pub take_loop-starts :
      (waiting : List Sequence) (c : Sequence) (queue : List Sequence)
      (running : Dict String Sequence)
      → waiting ≡ c ∷ queue
      → length running < places
      → 1 ≤ length (take_loop places limit waiting running [] 0).taken
  unfolding take_loop
  take_loop-starts [] c queue running e h = cc
  take_loop-starts (x ∷ waiting) c queue running e h =
      ground
        (arith, take_loop-grows waiting (insert x.request_id x running) (x ∷ []) (prompt_length x))
