-- ===== src/Waiting/Cancel.antt =====
-- Who may cancel a ticket, and what becomes of it.
use looma.Base.{
  if◌then◌else◌, Bool-cases, Option-cases, ◌==◌, string_eq, nat_eq, ℕ, String, ◌≡◌, refl, ◌⊎◌, inl,
  inr, true, false, Option, none, some, arith,
}
use looma.Base.Dict.{lookup, lookup-insert, lookup-erase}
use looma.Waiting.{is_waiting, cancelled, Ticket, WaitingRoom, cancel, close, is_owner}
use looma.Waiting.Invariant.{IsValid}

module _ {J : Type 0} where
  -- A ticket that is absent or another's is refused and nothing changes. The owner's waiting
  -- ticket is closed as cancelled and kept, a closed one is removed; no other ticket changes.
  pub cancel-answers :
      (id other : String) (who : Option ℕ) (now : ℕ) (room : WaitingRoom J)
      → IsValid room
      → let (done, room') = cancel id who now room in
        ((done ≡ false)
          × (room' ≡ room)
          × ((t : Ticket J) → lookup id room.tickets ≡ some t → is_owner t who ≡ false))
        ⊎ ((t : Ticket J) × (done ≡ true)
            × (lookup id room.tickets ≡ some t)
            × (is_owner t who ≡ true)
            × (lookup other room'.tickets ≡ (
                if other == id
                then (if is_waiting t.state then some (close cancelled "" now t) else none)
                else lookup other room.tickets)))
  unfolding cancel
  cancel-answers id other who now room v = elim (Option-cases (lookup id room.tickets)) [
    | inl absent ↦ rw (absent, cancel) (inl (refl, refl, λ t found. cc))
    | inr (t, found) ↦ elim (Bool-cases (is_owner t who)) [
      | inl own ↦ elim (Bool-cases (is_waiting t.state)) [
        | inl pending ↦
            rw (found, own, pending, cancel)
              (inr (t, refl, refl, own, rw pending (lookup-insert other id _ room.tickets)))
        | inr shut ↦
            rw (found, own, shut, cancel)
              (inr (t, refl, refl, own, rw shut (lookup-erase other id room.tickets v.0)))
      ]
      | inr foreign ↦
          rw (found, foreign, cancel) (inl (refl, refl, λ u same. ground (arith, foreign, same)))
    ]
  ]
