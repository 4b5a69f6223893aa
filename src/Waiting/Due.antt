-- ===== src/Waiting/Due.antt =====
-- What a pass of `due` returns, closes and forgets.
use looma.Base.{
  Option-cases, is_some, string_eq, nat_eq, All, ℕ, ◌+◌, ◌≤◌, ◌<◌, String, ◌≡◌, refl, inl, inr,
  true, not, none, some, [], ◌∷◌, arith,
}
use looma.Base.Dict.{Dict, lookup, values, NodupKeys}
use looma.Waiting.{
  is_waiting, expired, Ticket, WaitingRoom, settle, settle_all, due, linger, close, expired_message,
}
use looma.Waiting.Invariant.{IsValid, Sound-lookup, lookup-settle_all-none}

module _ {J : Type 0} where
  -- The entry of an id after the pass is what the pass makes of the entry before.
  pub lookup-settle_all :
      (at : ℕ) (stamp : String → ℕ) (id : String) (d : Dict String (Ticket J))
      → NodupKeys d
      → lookup id (settle_all at stamp d)
        ≡ elim (lookup id d) [ none ↦ none | some t ↦ settle at (stamp id) t ]
  unfolding settle_all lookup
  lookup-settle_all at stamp id [] u = refl
  lookup-settle_all at stamp id ((j, t) ∷ d) u = elim (string_eq.dec id j) [
    | yes same ↦ rw same (elim (Option-cases (settle at (stamp j) t)) [
      | inl gone ↦
          rw (gone, settle_all) (ground (arith, gone, lookup-settle_all-none at stamp j d u.0))
      | inr (t', kept) ↦ rw (kept, settle_all) (ground (arith, kept))
    ])
    | no differ ↦ elim (Option-cases (settle at (stamp j) t)) [
      | inl gone ↦
          rw (gone, settle_all) (ground (arith, differ, lookup-settle_all at stamp id d u.1))
      | inr (t', kept) ↦
          rw (kept, settle_all) (ground (arith, differ, lookup-settle_all at stamp id d u.1))
    ]
  ]

  not_overdue :
      (at : ℕ) (stamp : String → ℕ) (d : Dict String (Ticket J))
      → All (λ t. is_waiting t.state ≡ true → at < t.expires_at) (values (settle_all at stamp d))
  unfolding settle_all
  not_overdue at stamp [] = tt
  not_overdue at stamp ((j, t) ∷ d) = elim (Option-cases (settle at (stamp j) t)) [
    | inl gone ↦ rw (gone, settle_all) (not_overdue at stamp d)
    | inr (t', kept) ↦
        rw (kept, settle_all) (settle_open at (stamp j) t t' kept, not_overdue at stamp d)
  ]
    where
      settle_open :
          (at now : ℕ) (t t' : Ticket J)
          → settle at now t ≡ some t'
          → is_waiting t'.state ≡ true
          → at < t'.expires_at
      settle_open at now t t' e w = ground (arith, e, w)

  -- One ticket across a pass: overdue, it is closed as expired; closed, it is kept for the time
  -- that it lingers and then forgotten; otherwise it stays as it is.
  pub due-settles :
      (at : ℕ) (stamp : String → ℕ) (id : String) (t : Ticket J) (room : WaitingRoom J)
      → IsValid room
      → lookup id room.tickets ≡ some t
      → let after = lookup id (due at stamp room).1.tickets in
        (is_waiting t.state ≡ true
          → t.expires_at ≤ at
          → after ≡ some (close expired expired_message (stamp id) t))
        × (is_waiting t.state ≡ true → at < t.expires_at → after ≡ some t)
        × ((closed : ℕ)
            → t.closed_at ≡ some closed
            → (closed + linger < at → after ≡ none) × (at ≤ closed + linger → after ≡ some t))
  unfolding due
  due-settles at stamp id t room v found =
      let e : lookup id (settle_all at stamp room.tickets) ≡ settle at (stamp id) t =
        rw (lookup-settle_all at stamp id room.tickets v.0) (ground (arith, found)) in
      rw e (settle_cases at (stamp id) t (Sound-lookup id t room.tickets v.1 found).1)
    where
      settle_cases :
          (at now : ℕ) (t : Ticket J)
          → is_waiting t.state ≡ not (is_some t.closed_at)
          → (is_waiting t.state ≡ true
              → t.expires_at ≤ at
              → settle at now t ≡ some (close expired expired_message now t))
            × (is_waiting t.state ≡ true → at < t.expires_at → settle at now t ≡ some t)
            × ((closed : ℕ)
                → t.closed_at ≡ some closed
                → (closed + linger < at → settle at now t ≡ none)
                  × (at ≤ closed + linger → settle at now t ≡ some t))
      settle_cases at now t sound = (
        λ w late. ground (arith, w, late),
        λ w early. ground (arith, w, early, sound),
        λ closed e.
            (λ old. ground (arith, e, old, sound), λ young. ground (arith, e, young, sound)),
      )
