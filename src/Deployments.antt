-- ===== src/Deployments.antt =====
-- What was deployed, with which request, and what was put out for a lease and has to come back,
-- src/looma/usage/deployments.py.
-- The table is a dictionary by group id, in the order of creation; a request is any document.
pub mod Return
mod Tests
use looma.Base.Sort.{sort_by}
use looma.Base.Filter.{filter}
use looma.Base.Dict.{insert, lookup, Dict}
use looma.Base.{
  or_zero, ltb, eqb, if◌then◌else◌, is_some, ◌==◌, contains, string_eq, nat_eq, is_nil, ℕ, String,
  Bool, true, false, not, ◌&&◌, ◌||◌, Option, none, some, List, [], ◌∷◌,
}
use looma.Ledger.{Lease}

pub data State : Type 0 where
  running evicted gone : State

abbrev pub is_evicted : State → Bool
is_evicted running = false
is_evicted evicted = true
is_evicted gone = false

abbrev pub is_gone : State → Bool
is_gone running = false
is_gone evicted = false
is_gone gone = true

pub record Deployment (J : Type 0) : Type 0 where
  pub label : String
  pub request : J
  pub account_id : Option ℕ
  pub state : State
  pub protected : Bool
  pub evicted_by : Option ℕ
  pub evicted_at : Option ℕ

abbrev pub Deployments : Type 0 → Type 0
Deployments J = Dict String (Deployment J)

-- A closed lease of that id.
abbrev pub is_closed : List Lease → ℕ → Bool
is_closed [] lease_id = false
is_closed (l ∷ ls) lease_id = (eqb l.id lease_id && is_some l.closed_at) || is_closed ls lease_id

module _ {J : Type 0} where
  -- An UPDATE of the rows whose group is picked.
  unfoldable pub update_rows :
      (String → Bool) → (Deployment J → Deployment J) → Deployments J → Deployments J
  update_rows which change [] = []
  update_rows which change ((id, row) ∷ rest) =
      (id, if which id then change row else row) ∷ update_rows which change rest

  abbrev pub put_back : String → J → Deployment J → Deployment J
  put_back label request row = record row {
    label = label;
    request = request;
    state = running;
    evicted_by = none;
    evicted_at = none;
  }

  -- `remember`; a row that is there keeps its owner and its protection.
  pub remember : String → String → J → Option ℕ → Deployments J → Deployments J
  remember group_id label request account_id rows = elim (lookup group_id rows) [
    | some row ↦ insert group_id (put_back label request row) rows
    | none ↦
        let row : Deployment J = record {
          label = label;
          request = request;
          account_id = account_id;
          state = running;
          protected = false;
          evicted_by = none;
          evicted_at = none;
        } in
        insert group_id row rows
  ]

  abbrev pub finished : Deployment J → Deployment J
  finished row = record row { state = gone; evicted_by = none }

  -- `forget`
  pub forget : String → Deployments J → Deployments J
  unfolding update_rows
  forget group_id rows = update_rows (λ id. id == group_id) finished rows

  -- `restored`
  pub restored : String → Deployments J → Deployments J
  unfolding update_rows
  restored old_group_id rows = update_rows (λ id. id == old_group_id) finished rows

  abbrev pub put_out : ℕ → ℕ → Deployment J → Deployment J
  put_out lease_id now row = record row {
    state = evicted;
    evicted_by = some lease_id;
    evicted_at = some now;
  }

  -- `mark_evicted`
  pub mark_evicted : List String → ℕ → ℕ → Deployments J → Deployments J
  unfolding update_rows
  mark_evicted group_ids lease_id now rows =
      if is_nil group_ids
      then rows
      else update_rows (λ id. contains group_ids id) (put_out lease_id now) rows

  abbrev pub by_lease : ℕ → Deployment J → Bool
  by_lease lease_id row =
      is_evicted row.state && (elim row.evicted_by [ none ↦ false | some by ↦ eqb by lease_id ])

  abbrev pub out_before : String × Deployment J → String × Deployment J → Bool
  out_before a b = ltb (or_zero a.1.evicted_at) (or_zero b.1.evicted_at)

  -- `evicted_by`
  pub evicted_by : ℕ → Deployments J → Deployments J
  evicted_by lease_id rows = sort_by out_before (filter (λ e. by_lease lease_id e.1) rows)

  -- `set_protected`; the answer is whether one row was changed.
  pub set_protected : String → Bool → Deployments J → Bool × Deployments J
  unfolding update_rows
  set_protected group_id protected rows = (
    is_some (lookup group_id rows),
    update_rows (λ id. id == group_id) (λ row. record row { protected = protected }) rows,
  )

  -- `protected_ids`: groups, and the names of their models.
  unfoldable pub protected_ids : Deployments J → List String
  protected_ids [] = []
  protected_ids ((id, row) ∷ rest) =
      let others = protected_ids rest in
      if row.protected
      then id ∷ (if row.label == "" then others else row.label ∷ others)
      else others

  -- `list`
  pub list : Deployments J → Deployments J
  list rows = filter (λ e. not (is_gone e.1.state)) rows

  abbrev pub overdue : List Lease → Deployment J → Bool
  overdue leases row =
      is_evicted row.state && (elim row.evicted_by [ none ↦ false | some by ↦ is_closed leases by ])

  -- `waiting`
  pub waiting : List Lease → Deployments J → Deployments J
  waiting leases rows = sort_by out_before (filter (λ e. overdue leases e.1) rows)
