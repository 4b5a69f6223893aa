-- ===== src/Training.antt =====
-- The record of the training jobs, src/looma/usage/training.py: the store in memory, for an
-- orchestrator without a database, and the table that stands in its place, by group id in the
-- order of creation. Requests and results are documents of any type.
pub mod Memory
pub mod Table
pub mod Stores
mod Tests
use looma.Base.Dict.{lookup, Dict}
use looma.Base.{ltb, eqb, string_eq, nat_eq, ℕ, String, Bool, true, false, Option, none, some}

pub data State : Type 0 where
  running done failed stopped : State

abbrev pub is_running : State → Bool
is_running running = true
is_running done = false
is_running failed = false
is_running stopped = false

pub record TrainingJob (J : Type 0) : Type 0 where
  pub label : String
  pub request : J
  pub account_id : Option ℕ
  pub state : State
  pub result : Option J
  pub error : String
  pub created_at : ℕ
  pub finished_at : Option ℕ

abbrev pub Jobs : Type 0 → Type 0
Jobs J = Dict String (TrainingJob J)

module _ {J : Type 0} where
  abbrev pub new_job : String → J → Option ℕ → ℕ → TrainingJob J
  new_job label request account_id now = record {
    label = label;
    request = request;
    account_id = account_id;
    state = running;
    result = none;
    error = "";
    created_at = now;
    finished_at = none;
  }

  abbrev pub ended : State → Option J → String → ℕ → TrainingJob J → TrainingJob J
  ended state result error now job = record job {
    state = state;
    result = result;
    error = error;
    finished_at = some now;
  }

  abbrev pub newer : String × TrainingJob J → String × TrainingJob J → Bool
  newer a b = ltb b.1.created_at a.1.created_at

  abbrev pub belongs : Option ℕ → TrainingJob J → Bool
  belongs none job = true
  belongs (some account) job = elim job.account_id [ none ↦ false | some a ↦ eqb a account ]

  -- `get`, of either store
  pub get : String → Jobs J → Option (TrainingJob J)
  get group_id jobs = lookup group_id jobs
