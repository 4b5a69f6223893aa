-- ===== src/Waiting/Invariant.antt =====
-- A ticket waits exactly while it has no closing time, and stands under its own id; every
-- operation keeps this.
use looma.Base.{
  Bool-cases, Option, List, Option-cases, is_some, string_eq, nat_eq, ℕ, String, ◌≡◌, refl, inl,
  inr, not, none, some, [], ◌∷◌, arith,
}
use looma.Base.Dict.{insert-NodupKeys, erase-NodupKeys, Dict, lookup, insert, erase, NodupKeys}
use looma.Waiting.{
  of, is_owner, due, new_room, fail, done, cancel, add, is_waiting, Ticket, WaitingRoom, settle,
  settle_all,
}

module _ {J : Type 0} where
  -- What holds of the entry of an id.
  abbrev pub IsSound : String → Ticket J → Type 0
  IsSound id t = (t.id ≡ id) × (is_waiting t.state ≡ not (is_some t.closed_at))

  abbrev pub Sound : Dict String (Ticket J) → Type 0
  Sound [] = Unit
  Sound ((id, t) ∷ rest) = IsSound id t × Sound rest

  abbrev pub IsValid : WaitingRoom J → Type 0
  IsValid room = NodupKeys room.tickets × Sound room.tickets

  Sound-insert :
      (id : String) (t : Ticket J) (d : Dict String (Ticket J))
      → IsSound id t
      → Sound d
      → Sound (insert id t d)
  unfolding insert
  Sound-insert id t [] p h = (p, tt)
  Sound-insert id t ((j, u) ∷ d) p h = ground (arith, p, h, Sound-insert id t d p h.1)

  Sound-erase : (id : String) (d : Dict String (Ticket J)) → Sound d → Sound (erase id d)
  unfolding erase
  Sound-erase id [] h = tt
  Sound-erase id ((j, u) ∷ d) h = ground (arith, h, Sound-erase id d h.1)

  pub Sound-lookup :
      (id : String) (t : Ticket J) (d : Dict String (Ticket J))
      → Sound d
      → lookup id d ≡ some t
      → IsSound id t
  unfolding lookup
  Sound-lookup id t [] h e = cc
  Sound-lookup id t ((j, u) ∷ d) h e = ground (arith, h, Sound-lookup id t d h.1)

  -- The pass of `due` changes no id, and a ticket that it leaves is sound.
  pub lookup-settle_all-none :
      (at : ℕ) (stamp : String → ℕ) (id : String) (d : Dict String (Ticket J))
      → lookup id d ≡ none
      → lookup id (settle_all at stamp d) ≡ none
  unfolding settle_all lookup
  lookup-settle_all-none at stamp id [] e = refl
  lookup-settle_all-none at stamp id ((j, u) ∷ d) e = elim (Option-cases (settle at (stamp j) u)) [
    | inl gone ↦ rw (gone, settle_all) (lookup-settle_all-none at stamp id d (ground (arith, e)))
    | inr (u', kept) ↦
        rw (kept, settle_all) (ground (arith, e, lookup-settle_all-none at stamp id d))
  ]

  settle-IsSound :
      (at now : ℕ) (id : String) (t t' : Ticket J)
      → IsSound id t
      → settle at now t ≡ some t'
      → IsSound id t'
  unfolding settle
  settle-IsSound at now id t t' h e = ground (arith, h, e)

  settle_all-IsValid :
      (at : ℕ) (stamp : String → ℕ) (d : Dict String (Ticket J))
      → NodupKeys d × Sound d
      → NodupKeys (settle_all at stamp d) × Sound (settle_all at stamp d)
  unfolding settle_all
  settle_all-IsValid at stamp [] h = (tt, tt)
  settle_all-IsValid at stamp ((j, u) ∷ d) (nodup, sound) =
      let rest = settle_all-IsValid at stamp d (nodup.1, sound.1) in
      elim (Option-cases (settle at (stamp j) u)) [
        | inl gone ↦ rw (gone, settle_all) rest
        | inr (u', kept) ↦
            rw (kept, settle_all)
              (
                (lookup-settle_all-none at stamp j d nodup.0, rest.0),
                (settle-IsSound at (stamp j) j u u' sound.0 kept, rest.1),
              )
      ]

  put-IsValid :
      (room : WaitingRoom J) (id : String) (t : Ticket J)
      → IsValid room
      → IsSound id t
      → IsValid (record room { tickets = insert id t room.tickets })
  put-IsValid room id t v p =
      (insert-NodupKeys id t room.tickets v.0, Sound-insert id t room.tickets p v.1)

  drop-IsValid :
      (room : WaitingRoom J) (id : String)
      → IsValid room
      → IsValid (record room { tickets = erase id room.tickets })
  drop-IsValid room id v = (erase-NodupKeys id room.tickets v.0, Sound-erase id room.tickets v.1)

  cancel-IsValid :
      (id : String) (who : Option ℕ) (now : ℕ) (room : WaitingRoom J)
      → IsValid room
      → IsValid (cancel id who now room).1
  unfolding cancel
  cancel-IsValid id who now room v = elim (Option-cases (lookup id room.tickets)) [
    | inl absent ↦ rw (absent, cancel) v
    | inr (t, found) ↦ elim (Bool-cases (is_owner t who)) [
      | inl own ↦ elim (Bool-cases (is_waiting t.state)) [
        | inl pending ↦
            rw (found, own, pending, cancel)
              (put-IsValid room id _ v ((Sound-lookup id t room.tickets v.1 found).0, refl))
        | inr shut ↦ rw (found, own, shut, cancel) (drop-IsValid room id v)
      ]
      | inr other ↦ rw (found, other, cancel) v
    ]
  ]

  done-IsValid :
      (id : String) (result : J) (now : ℕ) (room : WaitingRoom J)
      → IsValid room
      → IsValid (done id result now room)
  unfolding done
  done-IsValid id result now room v = elim (Option-cases (lookup id room.tickets)) [
    | inl absent ↦ rw (absent, done) v
    | inr (t, found) ↦
        rw (found, done)
          (put-IsValid room id _ v ((Sound-lookup id t room.tickets v.1 found).0, refl))
  ]

  fail-IsValid :
      (id error : String) (now : ℕ) (room : WaitingRoom J)
      → IsValid room
      → IsValid (fail id error now room)
  unfolding fail
  fail-IsValid id error now room v = elim (Option-cases (lookup id room.tickets)) [
    | inl absent ↦ rw (absent, fail) v
    | inr (t, found) ↦
        rw (found, fail)
          (put-IsValid room id _ v ((Sound-lookup id t room.tickets v.1 found).0, refl))
  ]

-- One call of a method, with what it reads from outside.
pub data Call (J : Type 0) : Type 0 where
  call_add : String → ℕ → J → ℕ → ℕ → ℕ → Call J
  call_cancel : String → Option ℕ → ℕ → Call J
  call_due : ℕ → (String → ℕ) → Call J
  call_done : String → J → ℕ → Call J
  call_fail : String → String → ℕ → Call J
  call_of : Option ℕ → ℕ → (String → ℕ) → Call J

unfoldable pub serve : {J : Type 0} → Call J → WaitingRoom J → WaitingRoom J
serve (call_add id account raw want free at) room = (add id account raw want free at room).1
serve (call_cancel id who now) room = (cancel id who now room).1
serve (call_due at stamp) room = (due at stamp room).1
serve (call_done id result now) room = done id result now room
serve (call_fail id error now) room = fail id error now room
serve (call_of who at stamp) room = (of who at stamp room).1

unfoldable pub answer_all : {J : Type 0} → List (Call J) → WaitingRoom J → WaitingRoom J
unfolding serve
answer_all [] room = room
answer_all (c ∷ cs) room = answer_all cs (serve c room)

module _ {J : Type 0} where
  serve-IsValid : (c : Call J) (room : WaitingRoom J) → IsValid room → IsValid (serve c room)
  unfolding serve add due of
  serve-IsValid (call_add id account raw want free at) room v = put-IsValid room id _ v (refl, refl)
  serve-IsValid (call_cancel id who now) room v = cancel-IsValid id who now room v
  serve-IsValid (call_due at stamp) room v = settle_all-IsValid at stamp room.tickets v
  serve-IsValid (call_done id result now) room v = done-IsValid id result now room v
  serve-IsValid (call_fail id error now) room v = fail-IsValid id error now room v
  serve-IsValid (call_of none at stamp) room v = v
  serve-IsValid (call_of (some who) at stamp) room v = settle_all-IsValid at stamp room.tickets v

  keep-IsValid :
      (cs : List (Call J)) (room : WaitingRoom J) → IsValid room → IsValid (answer_all cs room)
  unfolding answer_all
  keep-IsValid [] room v = v
  keep-IsValid (c ∷ cs) room v = keep-IsValid cs (serve c room) (serve-IsValid c room v)

  -- Whatever is called on a new room: every ticket stands under its own id, no id twice, and a
  -- ticket waits exactly while it has no closing time.
  pub answer_all-IsValid : (cs : List (Call J)) (ttl : ℕ) → IsValid (answer_all cs (new_room J ttl))
  unfolding new_room
  answer_all-IsValid cs ttl = keep-IsValid cs (new_room J ttl) (tt, tt)
