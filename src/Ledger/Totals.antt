-- ===== src/Ledger/Totals.antt =====
-- What a report adds up, how it moves with time, and what a grant does to a balance.
use looma.Base.Sort.{sort_by, insert_sorted}
use looma.Base.Dict.{values, lookup, Dict, insert}
use looma.Base.Int.{◌-ℤ◌, int_laws, ◌+ℤ◌, ℤ, pos, negsuc}
use looma.Base.{
  eqb, if◌then◌else◌, Result, ok, err, string_eq, nat_eq, str_lt, sum_by, ℕ, zero, suc, ◌+◌, String,
  ◌≡◌, refl, ap, ◌∙◌, ◌≢◌, ◌⊎◌, inl, inr, Bool, true, false, Option, none, some, List, [], ◌∷◌,
  ◌++◌, arith,
}
use looma.Ledger.{Times, LedgerError, zero_grant, TokenUsage, Ledger, Credit, grant, Lease}
use looma.Ledger.Report.{
  all_of, token_rows, add_usage, token_line_or_new, add_lease, line_or_new, lease_rows, TokenLine,
  LeaseLine, lease_cost, balance, credited, by_resource, by_model, Query, report,
}

-- Sums over dictionaries and sorted lists.
module _ {V : Type 0} (f : V → ℕ) where
  abbrev old : Option V → ℕ
  old none = 0
  old (some v) = f v

  sum-insert :
      (k : String) (v : V) (d : Dict String V)
      → sum_by f (values (insert k v d)) + old (lookup k d) ≡ sum_by f (values d) + f v
  unfolding insert lookup
  sum-insert k v [] = omega arith
  sum-insert k v ((j, w) ∷ d) = ground (arith, sum-insert k v d)

  module _ (before : V → V → Bool) where
    sum-insert_sorted :
        (x : V) (ys : List V) → sum_by f (insert_sorted before x ys) ≡ f x + sum_by f ys
    unfolding insert_sorted
    sum-insert_sorted x [] = refl
    sum-insert_sorted x (y ∷ ys) = ground (arith, sum-insert_sorted x ys)

    sum-sort_by : (xs : List V) → sum_by f (sort_by before xs) ≡ sum_by f xs
    unfolding sort_by
    sum-sort_by [] = refl
    sum-sort_by (x ∷ xs) = omega (arith, sum-insert_sorted x (sort_by before xs), sum-sort_by xs)

sum-by_resource :
    (times : Times) (now : ℕ) (lines : Dict String LeaseLine) (ls : List Lease)
    → sum_by (λ l. l.cost) (values (by_resource times now lines ls))
      ≡ sum_by (λ l. l.cost) (values lines) + sum_by (lease_cost times now) ls
unfolding by_resource
sum-by_resource times now lines [] = omega arith
sum-by_resource times now lines (l ∷ ls) =
    let line = line_or_new l (lookup l.resource lines) in
    let put = sum-insert (λ x. x.cost) l.resource (add_lease times now l line) lines in
    let before : old (λ x. x.cost) (lookup l.resource lines) ≡ line.cost = ground arith in
    omega (
      arith,
      put,
      before,
      sum-by_resource times now (insert l.resource (add_lease times now l line) lines) ls,
    )

sum-by_model :
    (lines : Dict String TokenLine) (ts : List TokenUsage)
    → sum_by (λ t. t.cost) (values (by_model lines ts))
      ≡ sum_by (λ t. t.cost) (values lines) + sum_by (λ t. t.cost) ts
unfolding by_model
sum-by_model lines [] = omega arith
sum-by_model lines (t ∷ ts) =
    let line = token_line_or_new t.model (lookup t.model lines) in
    let put = sum-insert (λ x. x.cost) t.model (add_usage t line) lines in
    let before : old (λ x. x.cost) (lookup t.model lines) ≡ line.cost = ground arith in
    omega (arith, put, before, sum-by_model (insert t.model (add_usage t line) lines) ts)

-- The total of a report is what its leases and its answers have cost one by one: the grouping by
-- resource and by model and the sorting lose nothing.
pub report-total :
    (times : Times) (q : Query) (now : ℕ) (ledger : Ledger)
    → (report times q now ledger).total
      ≡ sum_by (lease_cost times now) (lease_rows q ledger.leases)
        + sum_by (λ t. t.cost) (token_rows q ledger.token_usage)
unfolding report
report-total times q now ledger =
    let leases = by_resource times now [] (lease_rows q ledger.leases) in
    let tokens = by_model [] (token_rows q ledger.token_usage) in
    omega (
      arith,
      sum-sort_by (λ l. l.cost) (λ a b. str_lt a.resource b.resource) (values leases),
      sum-sort_by (λ t. t.cost) (λ a b. str_lt a.model b.model) (values tokens),
      sum-by_resource times now [] (lease_rows q ledger.leases),
      sum-by_model [] (token_rows q ledger.token_usage),
    )

credited-append :
    (account : ℕ) (cs : List Credit) (c : Credit)
    → credited account (cs ++ (c ∷ []))
      ≡ (if eqb c.account_id account then credited account cs +ℤ c.kopecks else credited account cs)
unfolding credited
credited-append account [] c = grind int_laws
credited-append account (d ∷ cs) c = grind (int_laws, credited-append account cs c)

abbrev with_credit : Credit → Ledger → Ledger
with_credit c ledger = record ledger { credits = ledger.credits ++ (c ∷ []) }

moved : (a b k t : ℤ) → a ≡ b +ℤ k → a -ℤ t ≡ (b -ℤ t) +ℤ k
moved a b k t h = grind (int_laws, h)

balance-with_credit :
    (times : Times) (account now : ℕ) (c : Credit) (ledger : Ledger)
    → (eqb c.account_id account ≡ true
        → balance times account now (with_credit c ledger)
          ≡ balance times account now ledger +ℤ c.kopecks)
      × (eqb c.account_id account ≡ false
          → balance times account now (with_credit c ledger) ≡ balance times account now ledger)
unfolding balance
balance-with_credit times account now c ledger =
    let spent = (report times (all_of account) now ledger).total in
    let sum = credited-append account ledger.credits c in
    (
      λ own.
          moved _ (credited account ledger.credits) c.kopecks (pos spent)
            (sum ∙ ground (arith, own)),
      λ foreign. ap (λ a. a -ℤ pos spent) (sum ∙ ground (arith, foreign)),
    )

granted :
    (times : Times) (account other : ℕ) (c : Credit) (ledger : Ledger) (now : ℕ)
    → c.account_id ≡ account
    → (credit : Credit) × (after : Ledger) × (Path
        (Result LedgerError (Credit × Ledger))
        (ok (c, with_credit c ledger))
        (ok (credit, after)))
      × (balance times account now after ≡ balance times account now ledger +ℤ c.kopecks)
      × (account ≢ other → balance times other now after ≡ balance times other now ledger)
granted times account other c ledger now own = (
  c,
  with_credit c ledger,
  refl,
  (balance-with_credit times account now c ledger).0 (ground (arith, own)),
  λ ne. (balance-with_credit times other now c ledger).1 (ground (arith, own, ne)),
)

-- A grant of nothing is refused; any other, also a negative one, moves the balance of its account
-- by exactly its amount and that of no other.
pub balance-grant :
    (times : Times) (id account other : ℕ) (kopecks : ℤ) (note : String) (by : Option ℕ)
    (at now : ℕ) (ledger : Ledger)
    → ((kopecks ≡ pos 0) × (grant id account kopecks note by at ledger ≡ err zero_grant))
      ⊎ ((credit : Credit) × (after : Ledger) × (grant id account kopecks note by at ledger
            ≡ ok (credit, after))
          × (balance times account now after ≡ balance times account now ledger +ℤ kopecks)
          × (account ≢ other → balance times other now after ≡ balance times other now ledger))
unfolding grant
balance-grant times id account other (pos zero) note by at now ledger = inl (refl, refl)
balance-grant times id account other (pos (suc n)) note by at now ledger =
    inr (granted times account other _ ledger now refl)
balance-grant times id account other (negsuc n) note by at now ledger =
    inr (granted times account other _ ledger now refl)
