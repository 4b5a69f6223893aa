-- ===== src/Ledger.antt =====
-- Who has used how much: rates, leases, tokens and credits, src/looma/usage/ledger.py.
-- A table is the list of its rows in the order of their ids; a statement of SQL is the function of
-- the tables that it stands for. Times and durations are in microseconds, as the database has
-- them, and how doubles multiply is an argument of what a lease costs.
pub mod Leases
pub mod Report
pub mod Closing
pub mod Totals
mod Tests
use looma.Base.Sort.{sort_by}
use looma.Base.Filter.{filter, count_if}
use looma.Base.Dict.{lookup, insert, Dict}
use looma.Base.Int.{leb_ℤ, ℤ, pos, negsuc, pos_part}
use looma.Base.{
  ltb, eqb, if◌then◌else◌, Result, ok, err, ◌==◌, contains, string_eq, nat_eq, take, ℕ, zero, ◌+◌,
  ◌*◌, ◌/◌, String, Bool, true, not, ◌&&◌, ◌||◌, Option, none, some, List, [], ◌∷◌, ◌++◌, map,
}

abbrev pub inference : String
inference = "looma-inference"

abbrev pub compute : String
compute = "looma-compute"

abbrev pub training : String
training = "looma-training"

abbrev pub resources : List String
resources = inference ∷ compute ∷ training ∷ []

abbrev pub released : String
released = "released"

abbrev pub vanished : String
vanished = "vanished"

-- Kopecks for an hour of one card.
pub record Rate : Type 0 where
  pub resource : String
  pub per_hour : ℕ
  pub currency : String

pub record Lease : Type 0 where
  pub id : ℕ
  pub account_id : ℕ
  pub resource : String
  pub group_id : String
  pub label : String
  pub nodes : ℤ
  pub gpus : ℤ
  pub per_hour : ℕ
  pub currency : String
  pub opened_at : ℕ
  pub closed_at : Option ℕ
  pub closed_why : Option String

pub record TokenUsage : Type 0 where
  pub account_id : ℕ
  pub model : String
  pub prompt_tokens : ℕ
  pub completion_tokens : ℕ
  pub cost : ℕ
  pub at : ℕ

pub record Credit : Type 0 where
  pub id : ℕ
  pub account_id : ℕ
  pub kopecks : ℤ
  pub note : String
  pub granted_by : Option ℕ
  pub at : ℕ

pub record Ledger : Type 0 where
  pub rates : Dict String Rate
  pub leases : List Lease
  pub token_usage : List TokenUsage
  pub credits : List Credit

pub data LedgerError : Type 0 where
  no_such_resource : String → LedgerError
  negative_rate zero_grant : LedgerError

-- `token_cost`
pub token_cost : ℤ → ℤ → ℤ → ℤ → ℕ
token_cost prompt_tokens completion_tokens price_in price_out =
    let raw =
      pos_part prompt_tokens * pos_part price_in
      + pos_part completion_tokens * pos_part price_out in
    if ltb 0 raw then (raw + 999_999) / 1_000_000 else 0

-- How doubles multiply: the whole part, by `int`, of the product of a whole number and of a number of
-- seconds that is given in microseconds.
abbrev pub Times : Type 0
Times = ℕ → ℕ → ℕ

-- `cost`: the kopeck-seconds are cut to a whole number before the division rounds up.
pub cost : Times → ℤ → ℤ → ℤ → ℕ
cost times per_hour gpus microseconds =
    if leb_ℤ per_hour (pos 0) || leb_ℤ gpus (pos 0) || leb_ℤ microseconds (pos 0)
    then 0
    else (times (pos_part per_hour * pos_part gpus) (pos_part microseconds) + 3599) / 3600

-- `set_rate`
pub set_rate : String → ℤ → String → Ledger → Result LedgerError (Rate × Ledger)
set_rate resource (negsuc n) currency ledger =
    if not (contains resources resource) then err (no_such_resource resource) else err negative_rate
set_rate resource (pos per_hour) currency ledger =
    if not (contains resources resource)
    then err (no_such_resource resource)
    else (let rate : Rate = record {
      resource = resource;
      per_hour = per_hour;
      currency = currency;
    } in
        ok (rate, record ledger { rates = insert resource rate ledger.rates }))

abbrev pub no_rate : String → Rate
no_rate resource = record { resource = resource; per_hour = 0; currency = "RUB" }

abbrev pub rate_or : Rate → Option Rate → Rate
rate_or default none = default
rate_or default (some rate) = rate

-- `rate`; the call for the rate of the clusters is written out.
pub rate : String → Ledger → Rate
rate resource ledger =
    let of_compute = rate_or (no_rate compute) (lookup compute ledger.rates) in
    let default : Rate =
      if resource == training
      then record (no_rate training) { per_hour = of_compute.per_hour }
      else no_rate resource in
    rate_or default (lookup resource ledger.rates)

-- `rates`
pub rates : Ledger → List Rate
rates ledger = map (λ name. rate_or (no_rate name) (lookup name ledger.rates)) resources

abbrev pub same_number : Option ℕ → ℕ → Bool
same_number none n = true
same_number (some m) n = eqb m n

abbrev pub same_text : Option String → String → Bool
same_text none s = true
same_text (some t) s = t == s

-- `record_tokens`
pub record_tokens : ℕ → String → ℤ → ℤ → ℤ → ℤ → ℕ → Ledger → ℕ × Ledger
unfolding token_cost
record_tokens account_id model prompt_tokens completion_tokens price_in price_out now ledger =
    if leb_ℤ prompt_tokens (pos 0) && leb_ℤ completion_tokens (pos 0)
    then (0, ledger)
    else (let price = token_cost prompt_tokens completion_tokens price_in price_out in
        let usage : TokenUsage = record {
          account_id = account_id;
          model = model;
          prompt_tokens = pos_part prompt_tokens;
          completion_tokens = pos_part completion_tokens;
          cost = price;
          at = now;
        } in
        (price, record ledger { token_usage = ledger.token_usage ++ (usage ∷ []) }))

-- `grant`, with the id that the database gives
pub grant : ℕ → ℕ → ℤ → String → Option ℕ → ℕ → Ledger → Result LedgerError (Credit × Ledger)
grant id account_id (pos zero) note granted_by now ledger = err zero_grant
grant id account_id kopecks note granted_by now ledger =
    let credit : Credit = record {
      id = id;
      account_id = account_id;
      kopecks = kopecks;
      note = note;
      granted_by = granted_by;
      at = now;
    } in
    ok (credit, record ledger { credits = ledger.credits ++ (credit ∷ []) })

-- `grants`
pub grants : ℕ → ℕ → Ledger → List Credit
grants account_id limit ledger =
    take limit
      (sort_by (λ a b. ltb b.at a.at) (filter (λ c. eqb c.account_id account_id) ledger.credits))
