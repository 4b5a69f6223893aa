-- ===== src/Training/Memory.antt =====
-- The store of the training jobs in memory, `MemoryTrainingJobs` of src/looma/usage/training.py.
use looma.Base.Filter.{filter}
use looma.Base.Sort.{sort_by}
use looma.Base.Dict.{lookup, insert}
use looma.Base.{if◌then◌else◌, string_eq, nat_eq, ℕ, String, Option, none, some}
use looma.Training.{belongs, ended, newer, new_job, is_running, State, Jobs, TrainingJob}

module _ {J : Type 0} where
  -- `remember`
  unfoldable pub remember : String → String → J → Option ℕ → ℕ → Jobs J → Jobs J
  remember group_id label request account_id now jobs =
      insert group_id (new_job label request account_id now) jobs

  -- `get`
  unfoldable pub get : String → Jobs J → Option (TrainingJob J)
  get group_id jobs = lookup group_id jobs

  -- `list`
  unfoldable pub list : Option ℕ → Jobs J → Jobs J
  list account_id jobs = sort_by newer (filter (λ e. belongs account_id e.1) jobs)

  -- `finish`; a job that has ended keeps its end.
  unfoldable pub finish : String → State → Option J → String → ℕ → Jobs J → Jobs J
  finish group_id state result error now jobs = elim (lookup group_id jobs) [
    | none ↦ jobs
    | some job ↦
        if is_running job.state
        then insert group_id (ended state result error now job) jobs
        else jobs
  ]
