-- ===== src/Ledger/Report.antt =====
-- The report of what was used in a period, and the balance, `report` and `balance` of
-- src/looma/usage/ledger.py. The hours of a line, rounded for display, are not modelled.
use looma.Base.Sort.{sort_by}
use looma.Base.Filter.{filter}
use looma.Base.Dict.{values, lookup, insert, Dict}
use looma.Base.Int.{◌-ℤ◌, ◌+ℤ◌, sub_ℕ, ℤ, pos, negsuc, pos_part}
use looma.Base.{
  ltb, leb, eqb, if◌then◌else◌, ◌==◌, string_eq, nat_eq, str_lt, sum_by, ℕ, suc, ◌+◌, ◌*◌, String,
  Bool, true, ◌&&◌, Option, none, some, List, [], ◌∷◌,
}
use looma.Ledger.{same_text, same_number, inference, cost, Times, TokenUsage, Ledger, Credit, Lease}
use looma.Ledger.Leases.{is_open}

pub record Query : Type 0 where
  pub account_id : Option ℕ
  pub since : Option ℕ
  pub until : Option ℕ
  pub resource : Option String

-- The WHERE clause that both tables share.
abbrev pub in_period : Query → ℕ → ℕ → Bool
in_period q account_id at =
    same_number q.account_id account_id
    && (elim q.since [ none ↦ true | some from ↦ leb from at ])
    && (elim q.until [ none ↦ true | some to ↦ ltb at to ])

abbrev pub wants_tokens : Query → Bool
wants_tokens q = elim q.resource [ none ↦ true | some r ↦ r == inference ]

unfoldable pub lease_rows : Query → List Lease → List Lease
lease_rows q leases =
    filter (λ l. in_period q l.account_id l.opened_at && same_text q.resource l.resource) leases

unfoldable pub token_rows : Query → List TokenUsage → List TokenUsage
token_rows q usage =
    if wants_tokens q then filter (λ t. in_period q t.account_id t.at) usage else []

pub record LeaseLine : Type 0 where
  pub resource : String
  pub seconds : ℤ
  pub gpu_seconds : ℤ
  pub cost : ℕ
  pub currency : String
  pub running : ℕ
  pub leases : ℕ

pub record TokenLine : Type 0 where
  pub model : String
  pub prompt : ℕ
  pub completion : ℕ
  pub cost : ℕ

pub record Report : Type 0 where
  pub leases : List LeaseLine
  pub tokens : List TokenLine
  pub total : ℕ

-- `COALESCE(closed_at, now())`
abbrev pub ended_at : ℕ → Lease → ℕ
ended_at now l = elim l.closed_at [ none ↦ now | some closed ↦ closed ]

abbrev pub duration : ℕ → Lease → ℤ
duration now l = sub_ℕ (ended_at now l) l.opened_at

-- What one lease has cost by now.
abbrev pub lease_cost : Times → ℕ → Lease → ℕ
lease_cost times now l = cost times (pos l.per_hour) l.gpus (duration now l)

-- n * a
abbrev pub scale : ℕ → ℤ → ℤ
scale n (pos m) = pos (n * m)
scale n (negsuc m) = sub_ℕ 0 (n * suc m)

abbrev pub line_or_new : Lease → Option LeaseLine → LeaseLine
line_or_new l (some line) = line
line_or_new l none = record {
  resource = l.resource;
  seconds = pos 0;
  gpu_seconds = pos 0;
  cost = 0;
  currency = l.currency;
  running = 0;
  leases = 0;
}

abbrev pub add_lease : Times → ℕ → Lease → LeaseLine → LeaseLine
add_lease times now l line = record line {
  leases = line.leases + 1;
  running = line.running + (if is_open l then 1 else 0);
  seconds = line.seconds +ℤ duration now l;
  gpu_seconds = line.gpu_seconds +ℤ scale (pos_part l.gpus) (duration now l);
  cost = line.cost + lease_cost times now l;
}

-- The loop over the leases.
unfoldable pub by_resource : Times → ℕ → Dict String LeaseLine → List Lease → Dict String LeaseLine
by_resource times now lines [] = lines
by_resource times now lines (l ∷ ls) =
    by_resource times now
      (insert l.resource (add_lease times now l (line_or_new l (lookup l.resource lines))) lines) ls

abbrev pub token_line_or_new : String → Option TokenLine → TokenLine
token_line_or_new model (some line) = line
token_line_or_new model none = record { model = model; prompt = 0; completion = 0; cost = 0 }

abbrev pub add_usage : TokenUsage → TokenLine → TokenLine
add_usage t line = record line {
  prompt = line.prompt + t.prompt_tokens;
  completion = line.completion + t.completion_tokens;
  cost = line.cost + t.cost;
}

-- `GROUP BY model`
unfoldable pub by_model : Dict String TokenLine → List TokenUsage → Dict String TokenLine
by_model lines [] = lines
by_model lines (t ∷ ts) =
    by_model (insert t.model (add_usage t (token_line_or_new t.model (lookup t.model lines))) lines)
      ts

-- `report`
unfoldable pub report : Times → Query → ℕ → Ledger → Report
unfolding lease_rows token_rows by_resource by_model
report times q now ledger =
    let lease_lines =
      sort_by (λ a b. str_lt a.resource b.resource)
        (values (by_resource times now [] (lease_rows q ledger.leases))) in
    let token_lines =
      sort_by (λ a b. str_lt a.model b.model)
        (values (by_model [] (token_rows q ledger.token_usage))) in
    record {
      leases = lease_lines;
      tokens = token_lines;
      total = sum_by (λ l. l.cost) lease_lines + sum_by (λ t. t.cost) token_lines;
    }

abbrev pub all_of : ℕ → Query
all_of account_id = record {
  account_id = some account_id;
  since = none;
  until = none;
  resource = none;
}

-- `SELECT COALESCE(sum(kopecks), 0)`
unfoldable pub credited : ℕ → List Credit → ℤ
credited account_id [] = pos 0
credited account_id (c ∷ cs) =
    let rest = credited account_id cs in
    if eqb c.account_id account_id then c.kopecks +ℤ rest else rest

-- `balance`
unfoldable pub balance : Times → ℕ → ℕ → Ledger → ℤ
unfolding credited report
balance times account_id now ledger =
    credited account_id ledger.credits -ℤ pos (report times (all_of account_id) now ledger).total
