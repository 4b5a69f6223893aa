-- ===== src/Waiting.antt =====
-- The queue of leases that wait for free nodes, src/looma/orchestrator/waiting.py.
-- Times are milliseconds of the clock; `at` is the reading that a method takes first, and `stamp`
-- gives the reading taken when a ticket is closed, which comes later. Ids are drawn at random by
-- the caller's library and are arguments. The request and the result are documents of any type.
pub mod Invariant
pub mod Due
pub mod Cancel
mod Tests
use looma.Base.{
  ltb, leb, eqb, if◌then◌else◌, string_eq, nat_eq, ℕ, ◌+◌, String, Bool, true, false, not, ◌&&◌,
  Option, none, some, List, [], ◌∷◌,
}
use looma.Base.Dict.{Dict, lookup, insert, erase, values}
use looma.Base.Filter.{filter, count_if}
use looma.Base.Sort.{sort_by}

pub data State : Type 0 where
  waiting started failed expired cancelled : State

abbrev pub is_waiting : State → Bool
is_waiting waiting = true
is_waiting started = false
is_waiting failed = false
is_waiting expired = false
is_waiting cancelled = false

-- How long a closed ticket is still shown.
abbrev pub linger : ℕ
linger = 3_600_000

-- `Ticket`; the empty document of `result` is `none`.
pub record Ticket (J : Type 0) : Type 0 where
  pub id : String
  pub account_id : ℕ
  pub raw : J
  pub want : ℕ
  pub free_then : ℕ
  pub created_at : ℕ
  pub expires_at : ℕ
  pub state : State
  pub closed_at : Option ℕ
  pub error : String
  pub result : Option J

pub record WaitingRoom (J : Type 0) : Type 0 where
  pub ttl : ℕ
  pub tickets : Dict String (Ticket J)

abbrev expired_message : String
expired_message = "за это время узлы не освободились"

module _ {J : Type 0} where
  -- `add`, with the drawn id.
  pub add : String → ℕ → J → ℕ → ℕ → ℕ → WaitingRoom J → Ticket J × WaitingRoom J
  add id account_id raw want free at room =
      let ticket : Ticket J = record {
        id = id;
        account_id = account_id;
        raw = raw;
        want = want;
        free_then = free;
        created_at = at;
        expires_at = at + room.ttl;
        state = waiting;
        closed_at = none;
        error = "";
        result = none;
      } in
      (ticket, record room { tickets = insert id ticket room.tickets })

  -- `_close`
  abbrev pub close : State → String → ℕ → Ticket J → Ticket J
  close state error now ticket = record ticket {
    state = state;
    closed_at = some now;
    error = error;
  }

  -- `ticket.account_id != account_id`, where nobody may be given.
  abbrev pub is_owner : Ticket J → Option ℕ → Bool
  is_owner ticket none = false
  is_owner ticket (some account_id) = eqb ticket.account_id account_id

  -- `cancel`
  pub cancel : String → Option ℕ → ℕ → WaitingRoom J → Bool × WaitingRoom J
  cancel id account_id now room = elim (lookup id room.tickets) [
    | none ↦ (false, room)
    | some ticket ↦
        if not (is_owner ticket account_id)
        then (false, room)
        else if is_waiting ticket.state
        then (
          true,
          record room { tickets = insert id (close cancelled "" now ticket) room.tickets },
        )
        else (true, record room { tickets = erase id room.tickets })
  ]

  -- What the pass of `due` does to one ticket; `none` forgets it.
  pub settle : ℕ → ℕ → Ticket J → Option (Ticket J)
  settle at now ticket =
      if is_waiting ticket.state && leb ticket.expires_at at
      then some (close expired expired_message now ticket)
      else elim ticket.closed_at [
        | none ↦ some ticket
        | some closed ↦ if ltb (closed + linger) at then none else some ticket
      ]

  abbrev pub keep_entry :
      String → Option (Ticket J) → Dict String (Ticket J) → Dict String (Ticket J)
  keep_entry id none rest = rest
  keep_entry id (some ticket) rest = (id, ticket) ∷ rest

  pub settle_all : ℕ → (String → ℕ) → Dict String (Ticket J) → Dict String (Ticket J)
  unfolding settle
  settle_all at stamp [] = []
  settle_all at stamp ((id, ticket) ∷ rest) =
      keep_entry id (settle at (stamp id) ticket) (settle_all at stamp rest)

  abbrev pub still_waits : Ticket J → Bool
  still_waits ticket = is_waiting ticket.state

  abbrev pub older : Ticket J → Ticket J → Bool
  older a b = ltb a.created_at b.created_at

  abbrev pub newer : Ticket J → Ticket J → Bool
  newer a b = ltb b.created_at a.created_at

  -- `due`
  pub due : ℕ → (String → ℕ) → WaitingRoom J → List (Ticket J) × WaitingRoom J
  unfolding settle_all
  due at stamp room =
      let tickets = settle_all at stamp room.tickets in
      (sort_by older (filter still_waits (values tickets)), record room { tickets = tickets })

  -- `done`
  pub done : String → J → ℕ → WaitingRoom J → WaitingRoom J
  done id result now room = elim (lookup id room.tickets) [
    | none ↦ room
    | some ticket ↦
        let finished = close started "" now (record ticket { result = some result }) in
        record room { tickets = insert id finished room.tickets }
  ]

  -- `fail`
  pub fail : String → String → ℕ → WaitingRoom J → WaitingRoom J
  fail id error now room = elim (lookup id room.tickets) [
    | none ↦ room
    | some ticket ↦ record room { tickets = insert id (close failed error now ticket) room.tickets }
  ]

  -- `of`, newest first.
  pub of : Option ℕ → ℕ → (String → ℕ) → WaitingRoom J → List (Ticket J) × WaitingRoom J
  unfolding due
  of none at stamp room = ([], room)
  of (some account_id) at stamp room =
      let room' = (due at stamp room).1 in
      (sort_by newer (filter (λ t. eqb t.account_id account_id) (values room'.tickets)), room')

  -- `__len__`
  pub len : WaitingRoom J → ℕ
  len room = count_if still_waits (values room.tickets)

-- `__init__`, with the hours in milliseconds.
pub new_room : (J : Type 0) → ℕ → WaitingRoom J
new_room J ttl = record { ttl = ttl; tickets = [] }
