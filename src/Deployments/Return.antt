-- ===== src/Deployments/Return.antt =====
-- What is put out for a lease is found again, and given back once.
use looma.Base.Dict.{lookup, NodupKeys}
use looma.Base.Sort.{sort_by, insert_sorted}
use looma.Base.Filter.{filter}
use looma.Base.{
  ◌&&◌, true, not, is_some, contains, List, ℕ, if◌then◌else◌, ◌==◌, string_eq, nat_eq, String, ◌≡◌,
  refl, ap, ◌∙◌, Bool, false, ◌||◌, Option, none, some, [], ◌∷◌, arith,
}
use looma.Deployments.{
  is_closed, overdue, restored, put_out, finished, Lease, waiting, by_lease, mark_evicted,
  evicted_by, out_before, update_rows, Deployments, Deployment,
}

-- Whether a list of rows names a group.
abbrev pub names : {J : Type 0} → Deployments J → String → Bool
names [] id = false
names ((j, row) ∷ rest) id = id == j || names rest id

module _ {J : Type 0} where
  abbrev meets : (Deployment J → Bool) → Option (Deployment J) → Bool
  meets p none = false
  meets p (some row) = p row

  names-insert_sorted :
      (before : String × Deployment J → String × Deployment J → Bool) (x : String × Deployment J)
      (rows : Deployments J) (id : String)
      → names (insert_sorted before x rows) id ≡ (id == x.0 || names rows id)
  unfolding insert_sorted
  names-insert_sorted before x [] id = ground arith
  names-insert_sorted before x (y ∷ rows) id = ground (arith, names-insert_sorted before x rows id)

  names-sort_by :
      (before : String × Deployment J → String × Deployment J → Bool) (rows : Deployments J)
      (id : String)
      → names (sort_by before rows) id ≡ names rows id
  unfolding sort_by
  names-sort_by before [] id = refl
  names-sort_by before (x ∷ rows) id =
      ground
        (arith, names-insert_sorted before x (sort_by before rows) id, names-sort_by before rows id)

  names-absent :
      (p : Deployment J → Bool) (rows : Deployments J) (id : String)
      → lookup id rows ≡ none
      → names (filter (λ e. p e.1) rows) id ≡ false
  unfolding filter lookup
  names-absent p [] id e = refl
  names-absent p ((j, row) ∷ rows) id e = ground (arith, e, names-absent p rows id)

  names-filter :
      (p : Deployment J → Bool) (rows : Deployments J) (id : String)
      → NodupKeys rows
      → names (filter (λ e. p e.1) rows) id ≡ meets p (lookup id rows)
  unfolding filter lookup
  names-filter p [] id u = refl
  names-filter p ((j, row) ∷ rows) id (fresh, u) = elim (string_eq.dec id j) [
    | yes same ↦ ground (arith, same, names-absent p rows j fresh)
    | no differ ↦ ground (arith, differ, names-filter p rows id u)
  ]

  names_lem :
      (p : Deployment J → Bool) (rows : Deployments J) (id : String)
      → NodupKeys rows
      → names (sort_by out_before (filter (λ e. p e.1) rows)) id ≡ meets p (lookup id rows)
  names_lem p rows id u =
      names-sort_by out_before (filter (λ e. p e.1) rows) id ∙ names-filter p rows id u

  abbrev after_update :
      Bool → (Deployment J → Deployment J) → Option (Deployment J) → Option (Deployment J)
  after_update picked change none = none
  after_update picked change (some row) = some (if picked then change row else row)

  lookup-update_rows :
      (which : String → Bool) (change : Deployment J → Deployment J) (rows : Deployments J)
      (id : String)
      → lookup id (update_rows which change rows) ≡ after_update (which id) change (lookup id rows)
  unfolding update_rows lookup
  lookup-update_rows which change [] id = refl
  lookup-update_rows which change ((j, row) ∷ rows) id = elim (string_eq.dec id j) [
    | yes same ↦ rw same (ground arith)
    | no differ ↦ ground (arith, differ, lookup-update_rows which change rows id)
  ]

  update_rows-NodupKeys :
      (which : String → Bool) (change : Deployment J → Deployment J) (rows : Deployments J)
      → NodupKeys rows
      → NodupKeys (update_rows which change rows)
  unfolding update_rows
  update_rows-NodupKeys which change [] u = tt
  update_rows-NodupKeys which change ((j, row) ∷ rows) (fresh, u) = (
    lookup-update_rows which change rows j ∙ ap (after_update (which j) change) fresh,
    update_rows-NodupKeys which change rows u,
  )

  mark_evicted_lem :
      (ids : List String) (lease now : ℕ) (rows : Deployments J) (id : String)
      → lookup id (mark_evicted ids lease now rows)
        ≡ after_update (contains ids id) (put_out lease now) (lookup id rows)
  unfolding mark_evicted
  mark_evicted_lem [] lease now rows id = keep (lookup id rows)
    where
      keep : (o : Option (Deployment J)) → o ≡ after_update false (put_out lease now) o
      keep none = refl
      keep (some row) = refl
  mark_evicted_lem (g ∷ ids) lease now rows id =
      lookup-update_rows (λ k. contains (g ∷ ids) k) (put_out lease now) rows id

  mark_evicted-NodupKeys :
      (ids : List String) (lease now : ℕ) (rows : Deployments J)
      → NodupKeys rows
      → NodupKeys (mark_evicted ids lease now rows)
  unfolding mark_evicted
  mark_evicted-NodupKeys [] lease now rows u = u
  mark_evicted-NodupKeys (g ∷ ids) lease now rows u =
      update_rows-NodupKeys (λ k. contains (g ∷ ids) k) (put_out lease now) rows u

  meets-put_out :
      (picked : Bool) (lease now : ℕ) (o : Option (Deployment J))
      → meets (by_lease lease) (after_update picked (put_out lease now) o)
        ≡ (if picked then is_some o else meets (by_lease lease) o)
  meets-put_out true lease now none = refl
  meets-put_out true lease now (some row) = ground arith
  meets-put_out false lease now none = refl
  meets-put_out false lease now (some row) = refl

  meets-overdue :
      (lease now : ℕ) (leases : List Lease) (o : Option (Deployment J))
      → meets (overdue leases) (after_update true (put_out lease now) o)
        ≡ (is_some o && is_closed leases lease)
  meets-overdue lease now leases none = refl
  meets-overdue lease now leases (some row) = refl

  meets-finished :
      (picked : Bool) (lease : ℕ) (o : Option (Deployment J))
      → meets (by_lease lease) (after_update picked finished o)
        ≡ (not picked && meets (by_lease lease) o)
  meets-finished true lease none = refl
  meets-finished true lease (some row) = refl
  meets-finished false lease none = refl
  meets-finished false lease (some row) = refl

  -- A group that is put out for a lease and is known is found under that lease, no other group
  -- joins or leaves those, and it waits for its return from the moment that the lease is closed.
  -- Once it was brought back it is not found under any lease, and the others stay.
  pub mark_evicted-evicted_by :
      (ids : List String) (lease now other : ℕ) (leases : List Lease) (rows : Deployments J)
      (id old : String)
      → NodupKeys rows
      → let rows' = mark_evicted ids lease now rows in
        (names (evicted_by lease rows') id ≡ (
          if contains ids id then is_some (lookup id rows) else names (evicted_by lease rows) id))
        × (contains ids id ≡ true
            → names (waiting leases rows') id
              ≡ (is_some (lookup id rows) && is_closed leases lease))
        × (names (evicted_by other (restored old rows')) id
            ≡ (not (id == old) && names (evicted_by other rows') id))
  unfolding evicted_by waiting restored
  mark_evicted-evicted_by ids lease now other leases rows id old u =
      let rows' = mark_evicted ids lease now rows in
      let u' = mark_evicted-NodupKeys ids lease now rows u in
      let was = names_lem (by_lease lease) rows id u in
      let moved = mark_evicted_lem ids lease now rows id in
      (
        names_lem (by_lease lease) rows' id u'
            ∙ ap (meets (by_lease lease)) moved
            ∙ rw was (meets-put_out (contains ids id) lease now (lookup id rows)),
        λ picked.
            names_lem (overdue leases) rows' id u'
            ∙ ap (meets (overdue leases)) moved
            ∙ rw picked (meets-overdue lease now leases (lookup id rows)),
        names_lem (by_lease other) (update_rows (λ k. k == old) finished rows') id
              (update_rows-NodupKeys (λ k. k == old) finished rows' u')
            ∙ ap (meets (by_lease other)) (lookup-update_rows (λ k. k == old) finished rows' id)
            ∙ rw (names_lem (by_lease other) rows' id u')
                (meets-finished (id == old) other (lookup id rows')),
      )
