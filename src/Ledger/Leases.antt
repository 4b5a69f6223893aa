-- ===== src/Ledger/Leases.antt =====
-- The leases, how they are opened, found and closed, of `Ledger` in src/looma/usage/ledger.py.
use looma.Base.Sort.{sort_by}
use looma.Base.Filter.{filter, count_if}
use looma.Base.{
  ltb, eqb, if◌then◌else◌, is_some, ◌==◌, contains, string_eq, nat_eq, is_nil, ℕ, String, Bool,
  false, not, ◌&&◌, Option, none, some, List, [], ◌∷◌, ◌++◌,
}
use looma.Ledger.{same_text, same_number, ℤ, vanished, rate, Ledger, Lease}

-- `open_lease`, with the id that the database gives
unfoldable pub open_lease : ℕ → ℕ → String → String → ℤ → ℤ → String → ℕ → Ledger → ℕ × Ledger
unfolding rate
open_lease id account_id resource group_id nodes gpus label now ledger =
    let price = rate resource ledger in
    let lease : Lease = record {
      id = id;
      account_id = account_id;
      resource = resource;
      group_id = group_id;
      label = label;
      nodes = nodes;
      gpus = gpus;
      per_hour = price.per_hour;
      currency = price.currency;
      opened_at = now;
      closed_at = none;
      closed_why = none;
    } in
    (id, record ledger { leases = ledger.leases ++ (lease ∷ []) })

-- `closed_at IS NULL`
abbrev pub is_open : Lease → Bool
is_open l = not (is_some l.closed_at)

abbrev pub later : Lease → Lease → Bool
later a b = ltb b.opened_at a.opened_at

abbrev pub sooner : Lease → Lease → Bool
sooner a b = ltb a.opened_at b.opened_at

abbrev pub first_id : List Lease → Option ℕ
first_id [] = none
first_id (l ∷ ls) = some l.id

-- `lease_for`
unfoldable pub lease_for : String → Ledger → Option ℕ
lease_for group_id ledger =
    first_id (sort_by later (filter (λ l. l.group_id == group_id && is_open l) ledger.leases))

-- The UPDATE of `close_lease` and `reconcile`: the open leases that `which` picks.
unfoldable pub close_where : (Lease → Bool) → ℕ → String → List Lease → List Lease
close_where which now why [] = []
close_where which now why (l ∷ ls) =
    (if is_open l && which l then record l { closed_at = some now; closed_why = some why } else l)
    ∷ close_where which now why ls

abbrev pub close_some : (Lease → Bool) → ℕ → String → Ledger → ℕ × Ledger
close_some which now why ledger = (
  count_if (λ l. is_open l && which l) ledger.leases,
  record ledger { leases = close_where which now why ledger.leases },
)

-- `close_lease`
unfoldable pub close_lease : String → String → ℕ → Ledger → ℕ × Ledger
unfolding close_where
close_lease group_id why now ledger = close_some (λ l. l.group_id == group_id) now why ledger

-- `reconcile`
unfoldable pub reconcile : List String → ℕ → Ledger → ℕ × Ledger
unfolding close_where
reconcile live now ledger = close_some (λ l. not (contains live l.group_id)) now vanished ledger

-- `open_leases`
pub open_leases : Option ℕ → Option String → Ledger → List Lease
open_leases account_id resource ledger = sort_by sooner (
    filter (λ l. is_open l && same_number account_id l.account_id && same_text resource l.resource)
      ledger.leases)

-- `lease_belongs_to`
unfoldable pub lease_belongs_to : String → Option ℕ → Ledger → Bool
lease_belongs_to group_id none ledger = false
lease_belongs_to group_id (some account_id) ledger = not (
    is_nil (
      filter (λ l. l.group_id == group_id && eqb l.account_id account_id && is_open l)
        ledger.leases))
