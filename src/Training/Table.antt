-- ===== src/Training/Table.antt =====
-- The table of the training jobs, `TrainingJobs` of src/looma/usage/training.py.
use looma.Base.Filter.{filter}
use looma.Base.Sort.{sort_by}
use looma.Base.Dict.{lookup}
use looma.Base.{
  if◌then◌else◌, is_some, ◌==◌, string_eq, nat_eq, take, ℕ, String, Bool, ◌&&◌, Option, [], ◌∷◌,
  ◌++◌,
}
use looma.Training.{belongs, newer, new_job, ended, is_running, State, Jobs, TrainingJob}

-- The LIMIT of `list`
abbrev pub limit : ℕ
limit = 500

module _ {J : Type 0} where
  -- An UPDATE of the rows that a condition picks.
  unfoldable pub update_where :
      (String → TrainingJob J → Bool) → (TrainingJob J → TrainingJob J) → Jobs J → Jobs J
  update_where which change [] = []
  update_where which change ((id, row) ∷ rest) =
      (id, if which id row then change row else row) ∷ update_where which change rest

  -- `remember`: a row that is there only gets the new label and request.
  unfoldable pub remember : String → String → J → Option ℕ → ℕ → Jobs J → Jobs J
  unfolding update_where
  remember group_id label request account_id now rows =
      if is_some (lookup group_id rows)
      then update_where (λ id row. id == group_id)
          (λ row. record row { label = label; request = request }) rows
      else rows ++ ((group_id, new_job label request account_id now) ∷ [])

  -- `get`
  unfoldable pub get : String → Jobs J → Option (TrainingJob J)
  get group_id rows = lookup group_id rows

  -- `list`
  unfoldable pub list : Option ℕ → Jobs J → Jobs J
  list account_id rows = take limit (sort_by newer (filter (λ e. belongs account_id e.1) rows))

  -- `finish`
  unfoldable pub finish : String → State → Option J → String → ℕ → Jobs J → Jobs J
  unfolding update_where
  finish group_id state result error now rows =
      update_where (λ id row. id == group_id && is_running row.state) (ended state result error now)
        rows
