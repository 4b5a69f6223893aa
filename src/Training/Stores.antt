-- ===== src/Training/Stores.antt =====
-- The two stores of the training jobs keep the same books.
use looma.Base.Dict.{lookup-nil, lookup-insert, insert-NodupKeys, NodupKeys, lookup, insert}
use looma.Base.{
  take_all, if◌then◌else◌, Bool-cases, Option-cases, ◌==◌, contains, string_eq, nat_eq, length, ℕ,
  ◌≤◌, String, ◌≡◌, refl, sym, inl, inr, false, ◌&&◌, Option, none, some, List, [], ◌∷◌, ◌++◌,
  arith,
}
use looma.Training.{ended, new_job, is_running, State, Jobs, TrainingJob}
use looma.Training.Memory
use looma.Training.Table

-- A call that changes the books.
pub data Call (J : Type 0) : Type 0 where
  call_remember : String → String → J → Option ℕ → ℕ → Call J
  call_finish : String → State → Option J → String → ℕ → Call J

module _ {J : Type 0} where
  unfoldable pub in_memory : List (Call J) → Jobs J → Jobs J
  unfolding Memory.remember Memory.finish
  in_memory [] jobs = jobs
  in_memory (call_remember id label request account now ∷ cs) jobs =
      in_memory cs (Memory.remember id label request account now jobs)
  in_memory (call_finish id state result error now ∷ cs) jobs =
      in_memory cs (Memory.finish id state result error now jobs)

  unfoldable pub in_table : List (Call J) → Jobs J → Jobs J
  unfolding Table.remember Table.finish
  in_table [] rows = rows
  in_table (call_remember id label request account now ∷ cs) rows =
      in_table cs (Table.remember id label request account now rows)
  in_table (call_finish id state result error now ∷ cs) rows =
      in_table cs (Table.finish id state result error now rows)

  -- Every job gets an id of its own.
  abbrev pub FreshIds : List (Call J) → List String → Type 0
  FreshIds [] used = Unit
  FreshIds (call_remember id label request account now ∷ cs) used =
      (contains used id ≡ false) × FreshIds cs (id ∷ used)
  FreshIds (call_finish id state result error now ∷ cs) used = FreshIds cs used

  insert-new :
      (id : String) (job : TrainingJob J) (jobs : Jobs J)
      → lookup id jobs ≡ none
      → insert id job jobs ≡ jobs ++ ((id, job) ∷ [])
  unfolding insert lookup
  insert-new id job [] e = refl
  insert-new id job ((j, x) ∷ jobs) e = ground (arith, e, insert-new id job jobs)

  remember_same :
      (id label : String) (request : J) (account : Option ℕ) (now : ℕ) (jobs : Jobs J)
      → lookup id jobs ≡ none
      → Table.remember id label request account now jobs
        ≡ Memory.remember id label request account now jobs
  unfolding Table.remember Memory.remember
  remember_same id label request account now jobs new =
      rw new (sym (insert-new id (new_job label request account now) jobs new))

  update_where-absent :
      (id : String) (change : TrainingJob J → TrainingJob J) (jobs : Jobs J)
      → lookup id jobs ≡ none
      → Table.update_where (λ k row. k == id && is_running row.state) change jobs ≡ jobs
  unfolding Table.update_where lookup
  update_where-absent id change [] e = refl
  update_where-absent id change ((j, x) ∷ jobs) e =
      ground (arith, e, update_where-absent id change jobs)

  update_where-present :
      (id : String) (change : TrainingJob J → TrainingJob J) (job : TrainingJob J) (jobs : Jobs J)
      → NodupKeys jobs
      → lookup id jobs ≡ some job
      → Table.update_where (λ k row. k == id && is_running row.state) change jobs
        ≡ (if is_running job.state then insert id (change job) jobs else jobs)
  unfolding Table.update_where lookup insert
  update_where-present id change job [] u e = cc
  update_where-present id change job ((j, x) ∷ jobs) u e = elim (string_eq.dec id j) [
    | yes same ↦
        let here : x ≡ job = ground (arith, e, same) in
        let rest : Table.update_where (λ k row. k == id && is_running row.state) change jobs
            ≡ jobs =
          update_where-absent id change jobs (ground (arith, u, same)) in
        ground (arith, same, here, rest)
    | no differ ↦
        let there : lookup id jobs ≡ some job = ground (arith, e, differ) in
        ground (arith, differ, update_where-present id change job jobs u.1 there)
  ]

  finish_same :
      (id : String) (state : State) (result : Option J) (error : String) (now : ℕ) (jobs : Jobs J)
      → NodupKeys jobs
      → Table.finish id state result error now jobs ≡ Memory.finish id state result error now jobs
  unfolding Table.finish Memory.finish
  finish_same id state result error now jobs u = elim (Option-cases (lookup id jobs)) [
    | inl absent ↦
        rw (absent, Memory.finish)
          (update_where-absent id (ended state result error now) jobs absent)
    | inr (job, found) ↦
        rw (found, Memory.finish)
          (update_where-present id (ended state result error now) job jobs u found)
  ]

  -- What the ids that were used say of the books.
  abbrev Covers : List String → Jobs J → Type 0
  Covers used jobs = (id : String) → contains used id ≡ false → lookup id jobs ≡ none

  remember-Covers :
      (id : String) (job : TrainingJob J) (used : List String) (jobs : Jobs J)
      → Covers used jobs
      → Covers (id ∷ used) (insert id job jobs)
  remember-Covers id job used jobs h k e =
      ground (arith, e, lookup-insert k id job jobs, h k (ground (arith, e)))

  finish-kept :
      (id : String) (state : State) (result : Option J) (error : String) (now : ℕ)
      (used : List String) (jobs : Jobs J)
      → NodupKeys jobs
      → Covers used jobs
      → NodupKeys (Memory.finish id state result error now jobs)
        × Covers used (Memory.finish id state result error now jobs)
  unfolding Memory.finish
  finish-kept id state result error now used jobs u h = elim (Option-cases (lookup id jobs)) [
    | inl absent ↦ rw (absent, Memory.finish) (u, h)
    | inr (job, found) ↦ elim (Bool-cases (is_running job.state)) [
      | inl runs ↦
          let job' = ended state result error now job in
          rw (found, runs, Memory.finish)
            (
              insert-NodupKeys id job' jobs u,
              λ k e. ground (arith, found, h k e, lookup-insert k id job' jobs),
            )
      | inr over ↦ rw (found, over, Memory.finish) (u, h)
    ]
  ]

  same_books :
      (cs : List (Call J)) (used : List String) (jobs : Jobs J)
      → NodupKeys jobs
      → Covers used jobs
      → FreshIds cs used
      → in_table cs jobs ≡ in_memory cs jobs
  unfolding in_table in_memory Memory.remember
  same_books [] used jobs u h fresh = refl
  same_books (call_remember id label request account now ∷ cs) used jobs u h fresh =
      let job = new_job label request account now in
      rw (remember_same id label request account now jobs (h id fresh.0)) (
        same_books cs (id ∷ used) (insert id job jobs) (insert-NodupKeys id job jobs u)
          (remember-Covers id job used jobs h) fresh.1)
  same_books (call_finish id state result error now ∷ cs) used jobs u h fresh =
      let (u', h') = finish-kept id state result error now used jobs u h in
      rw (finish_same id state result error now jobs u)
        (same_books cs used (Memory.finish id state result error now jobs) u' h' fresh)

  -- An orchestrator without a database sees the same jobs as one with it: after any calls in which
  -- every job has an id of its own, `get` answers the same for every id, and `list` the same as
  -- long as it has no more than 500 jobs to show.
  pub get-in_table :
      (cs : List (Call J)) (id : String) (account : Option ℕ)
      → FreshIds cs []
      → (Table.get id (in_table cs []) ≡ Memory.get id (in_memory cs []))
        × (length (Memory.list account (in_memory cs [])) ≤ Table.limit
            → Table.list account (in_table cs []) ≡ Memory.list account (in_memory cs []))
  unfolding Table.get Memory.get Table.list Memory.list
  get-in_table cs id account fresh =
      let same = same_books cs [] [] tt (λ k e. lookup-nil k) fresh in
      (rw same refl, λ few. rw same (take_all Table.limit _ few))
