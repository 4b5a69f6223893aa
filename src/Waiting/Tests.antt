-- ===== src/Waiting/Tests.antt =====
-- Runs of the queue, and its theorems at concrete tickets.
use looma.Base.{
  string_eq, nat_eq, ℕ, ◌+◌, ◌≤◌, ◌<◌, String, ◌≡◌, refl, true, none, some, List, [], ◌∷◌, map,
}
use looma.Base.Dict.{lookup, insert, erase, values}
use looma.Base.Filter.{filter, count_if}
use looma.Base.Sort.{sort_by}
use looma.Waiting.{
  waiting, is_waiting, expired, Ticket, WaitingRoom, add, close, cancel, of, due, done, fail, len,
  new_room, linger, expired_message,
}
use looma.Waiting.Invariant.{
  IsValid, Call, call_add, call_cancel, call_due, answer_all, answer_all-IsValid,
}
use looma.Waiting.Due.{due-settles}

calls : List (Call ℕ)
calls =
    call_add "a" 1 7 4 0 100
    ∷ call_add "b" 2 8 2 0 50
    ∷ call_add "c" 1 9 2 0 60
    ∷ call_cancel "b" (some 1) 70
    ∷ call_cancel "c" (some 1) 80
    ∷ call_due 90 (λ id. 91)
    ∷ []

room : WaitingRoom ℕ
unfolding answer_all calls add cancel due new_room string_eq lookup insert erase filter sort_by
room = answer_all calls (new_room ℕ 1000)

abbrev stamp : String → ℕ
stamp id = 2001

tried_first : map (λ t. t.id) (due 200 stamp room).0 ≡ "b" ∷ "a" ∷ []
unfolding room
tried_first = refl

shown : map (λ t. t.id) (of (some 1) 200 stamp room).0 ≡ "a" ∷ "c" ∷ []
unfolding room of
shown = refl

expires :
    map (λ t. t.closed_at) (values (due 2000 stamp room).1.tickets)
    ≡ some 2001 ∷ some 2001 ∷ some 80 ∷ []
unfolding room
expires = refl

forgets : len (fail "b" "no nodes" 300 (done "a" 5 300 (due 4_000_000 stamp room).1)) ≡ 0
unfolding room len done fail count_if
forgets = refl

room-IsValid : IsValid room
unfolding room
room-IsValid = answer_all-IsValid calls 1000

answer_all-IsValid_example : IsValid (answer_all calls (new_room ℕ 1000))
answer_all-IsValid_example = answer_all-IsValid calls 1000

abbrev ticket : Ticket ℕ
ticket = record {
  id = "b";
  account_id = 2;
  raw = 8;
  want = 2;
  free_then = 0;
  created_at = 50;
  expires_at = 1050;
  state = waiting;
  closed_at = none;
  error = "";
  result = none;
}

due-settles_example :
    let after = lookup "b" (due 1100 stamp room).1.tickets in
    (is_waiting ticket.state ≡ true
      → ticket.expires_at ≤ 1100
      → after ≡ some (close expired expired_message 2001 ticket))
    × (is_waiting ticket.state ≡ true → 1100 < ticket.expires_at → after ≡ some ticket)
    × ((closed : ℕ)
        → ticket.closed_at ≡ some closed
        → (closed + linger < 1100 → after ≡ none) × (1100 ≤ closed + linger → after ≡ some ticket))
unfolding room
due-settles_example = due-settles 1100 stamp "b" ticket room room-IsValid refl
