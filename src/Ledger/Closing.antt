-- ===== src/Ledger/Closing.antt =====
-- What closes a lease, and what a closed lease costs.
use looma.Base.Filter.{count_if, filter}
use looma.Base.{
  contains, string_eq, nat_eq, length, ℕ, ◌+◌, String, ◌≡◌, refl, Bool, not, ◌&&◌, some, List, [],
  ◌∷◌, map, arith,
}
use looma.Ledger.{vanished, Ledger, Lease}
use looma.Ledger.Leases.{is_open, close_where, reconcile}

abbrev open_in : Ledger → List Lease
open_in ledger = filter is_open ledger.leases

abbrev lives : List String → Lease → Bool
lives live l = contains live l.group_id

filter-close_where :
    (which keep : Lease → Bool) (now : ℕ) (why : String) (ls : List Lease)
    → ((l : Lease) → which l ≡ not (keep l))
    → (filter is_open (close_where which now why ls) ≡ filter keep (filter is_open ls))
      × (count_if (λ l. is_open l && which l) ls + length (filter keep (filter is_open ls))
          ≡ length (filter is_open ls))
unfolding close_where filter count_if
filter-close_where which keep now why [] h = (refl, refl)
filter-close_where which keep now why (l ∷ ls) h =
    ground (arith, h l, filter-close_where which keep now why ls h)

close_where-once :
    (which : Lease → Bool) (now : ℕ) (why : String) (ls : List Lease)
    → ((l : Lease) → which (record l { closed_at = some now; closed_why = some why }) ≡ which l)
    → (count_if (λ l. is_open l && which l) (close_where which now why ls) ≡ 0)
      × (map (λ l. l.id) (close_where which now why ls) ≡ map (λ l. l.id) ls)
unfolding close_where count_if
close_where-once which now why [] h = (refl, refl)
close_where-once which now why (l ∷ ls) h = ground (arith, h l, close_where-once which now why ls h)

-- After `reconcile` the open leases are those that were open and whose group lives, in their
-- order; the number that it returns is of the others. A second pass over the same groups closes
-- nothing, and no lease is lost or reordered.
pub reconcile-open :
    (live : List String) (now again : ℕ) (ledger : Ledger)
    → let (closed, after) = reconcile live now ledger in
      (open_in after ≡ filter (lives live) (open_in ledger))
      × (closed + length (open_in after) ≡ length (open_in ledger))
      × ((reconcile live again after).0 ≡ 0)
      × (map (λ l. l.id) after.leases ≡ map (λ l. l.id) ledger.leases)
unfolding reconcile
reconcile-open live now again ledger =
    let dead : Lease → Bool = λ l. not (contains live l.group_id) in
    let (left, closed) =
      filter-close_where dead (lives live) now vanished ledger.leases (λ l. ground arith) in
    let (none_left, kept) = close_where-once dead now vanished ledger.leases (λ l. refl) in
    (left, rw left closed, none_left, kept)
