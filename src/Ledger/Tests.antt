-- ===== src/Ledger/Tests.antt =====
-- Runs of the ledger, and its theorems at concrete rows.
use looma.Base.Dict.{lookup, insert}
use looma.Base.Sort.{insert_sorted, sort_by}
use looma.Base.Filter.{filter, count_if}
use looma.Base.Int.{pos}
use looma.Base.{
  ◌/◌, Result, ok, err, contains, string_eq, nat_eq, str_lt, length, sum_by, ◌+◌, ◌*◌, ◌≡◌, refl,
  false, some, [], ◌∷◌, map,
}
use looma.Ledger.{
  Times, compute, released, record_tokens, training, no_such_resource, Rate, token_cost, set_rate,
  rate, cost, LedgerError, Ledger,
}
use looma.Ledger.Leases.{open_lease, is_open, reconcile, lease_for, lease_belongs_to, close_lease}
use looma.Ledger.Report.{by_model, by_resource, token_rows, lease_rows, lease_cost, all_of, report}
use looma.Ledger.Totals.{report-total}
use looma.Ledger.Closing.{reconcile-open}

-- Products that a double holds exactly.
abbrev exact : Times
exact n microseconds = (n * microseconds) / 1_000_000

-- 1000 kopecks for an hour of two cards, half an hour long.
half_an_hour : cost exact (pos 1000) (pos 2) (pos 1_800_000_000) ≡ 1000
unfolding cost
half_an_hour = refl

-- One kopeck-second and a half is cut to one before it is rounded up.
rounds_up : cost exact (pos 1) (pos 1) (pos 1_500_000) ≡ 1
unfolding cost
rounds_up = refl

-- Half a kopeck-second is cut to nothing.
lost : cost exact (pos 1) (pos 1) (pos 500_000) ≡ 0
unfolding cost
lost = refl

one_token : token_cost (pos 1) (pos 0) (pos 50) (pos 0) ≡ 1
unfolding token_cost
one_token = refl

abbrev empty : Ledger
empty = record { rates = []; leases = []; token_usage = []; credits = [] }

abbrev priced : Result LedgerError (Rate × Ledger) → Ledger
priced (ok (r, l)) = l
priced (err e) = empty

-- Two leases, the price raised after the first.
books : Ledger
unfolding set_rate open_lease rate record_tokens token_cost insert lookup string_eq
books =
    let a = priced (set_rate compute (pos 3600) "RUB" empty) in
    let b = (open_lease 1 7 compute "g1" (pos 1) (pos 2) "rack" 0 a).1 in
    let c = priced (set_rate compute (pos 7200) "RUB" b) in
    let d = (open_lease 2 8 training "g2" (pos 1) (pos 1) "" 1_000_000 c).1 in
    (record_tokens 7 "m" (pos 900_000) (pos 100_000) (pos 100) (pos 200) 2_000_000 d).1

first_bill : (report exact (all_of 7) 10_000_000 books).total ≡ 130
unfolding books report cost lease_rows token_rows by_resource by_model filter sort_by insert_sorted
    str_lt
first_bill = refl

training_has_the_rate_of_compute : (rate training books).per_hour ≡ 7200
unfolding books rate
training_has_the_rate_of_compute = refl

refused : set_rate "x" (pos 1) "RUB" books ≡ err (no_such_resource "x")
unfolding set_rate string_eq
refused = refl

theirs : lease_belongs_to "g1" (some 8) books ≡ false
unfolding books lease_belongs_to filter
theirs = refl

newest : lease_for "g2" books ≡ some 2
unfolding books lease_for filter sort_by insert_sorted
newest = refl

released_once : (close_lease "g1" released 5_000_000 books).0 ≡ 1
unfolding books close_lease count_if
released_once = refl

report-total_example :
    (report exact (all_of 7) 10_000_000 books).total
    ≡ sum_by (lease_cost exact 10_000_000) (lease_rows (all_of 7) books.leases)
      + sum_by (λ t. t.cost) (token_rows (all_of 7) books.token_usage)
report-total_example = report-total exact (all_of 7) 10_000_000 books

reconcile-open_example :
    let (closed, after) = reconcile ("g2" ∷ []) 5_000_000 books in
    (filter is_open after.leases
      ≡ filter (λ l. contains ("g2" ∷ []) l.group_id) (filter is_open books.leases))
    × (closed + length (filter is_open after.leases) ≡ length (filter is_open books.leases))
    × ((reconcile ("g2" ∷ []) 6_000_000 after).0 ≡ 0)
    × (map (λ l. l.id) after.leases ≡ map (λ l. l.id) books.leases)
reconcile-open_example = reconcile-open ("g2" ∷ []) 5_000_000 6_000_000 books
