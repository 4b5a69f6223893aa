-- ===== src/Hub/Tasks/Outbox.antt =====
-- What the messages of the hub do to the queues of its sessions, and to nothing else.
use mathlib.Core.List.{append-nil, append_assoc}
use looma.Base.{
  if◌then◌else◌, Option-cases, ◌==◌, string_eq, nat_eq, String, ◌≡◌, refl, ap, inl, inr, Option,
  none, some, List, [], ◌∷◌, ◌++◌, arith,
}
use looma.Base.Dict.{lookup, lookup-insert}
use looma.Hub.{AgentHub, AgentSession, ServerMessage, send}
use looma.Hub.Tasks.{send_all}

abbrev pub queue_of : Option AgentSession → Option (List ServerMessage)
queue_of none = none
queue_of (some session) = some session.outbox

-- What waits for a node, if it is connected.
abbrev pub outbox : String → AgentHub → Option (List ServerMessage)
outbox id h = queue_of (lookup id h.sessions)

abbrev pub and_then : List ServerMessage → Option (List ServerMessage) → Option (List ServerMessage)
and_then ms none = none
and_then ms (some q) = some (q ++ ms)

-- Everything but the queues.
abbrev pub SameBut : AgentHub → AgentHub → Type 0
SameBut h h' = h' ≡ record h { sessions = h'.sessions }

pub send-SameBut : (id : String) (m : ServerMessage) (h : AgentHub) → SameBut h (send id m h)
unfolding send
send-SameBut id m h = ground arith

pub outbox-send :
    (j id : String) (m : ServerMessage) (h : AgentHub)
    → outbox j (send id m h) ≡ (if j == id then and_then (m ∷ []) (outbox j h) else outbox j h)
unfolding send
outbox-send j id m h = elim (Option-cases (lookup id h.sessions)) [
  | inl away ↦ rw (away, send) (ground (arith, away))
  | inr (session, at) ↦
      rw (at, send)
        (ground (
          arith,
          at,
          lookup-insert j id (record session { outbox = session.outbox ++ m ∷ [] }) h.sessions,
        ))
]

append_one :
    (q : List ServerMessage) (m : ServerMessage) (ms : List ServerMessage)
    → (q ++ m ∷ []) ++ ms ≡ q ++ m ∷ ms
append_one q m ms = append_assoc q (m ∷ []) ms

and_then_twice :
    (m : ServerMessage) (ms : List ServerMessage) (o : Option (List ServerMessage))
    → and_then ms (and_then (m ∷ []) o) ≡ and_then (m ∷ ms) o
and_then_twice m ms none = refl
and_then_twice m ms (some q) = ap some (append_one q m ms)

pub and_then_nothing : (o : Option (List ServerMessage)) → and_then [] o ≡ o
and_then_nothing none = refl
and_then_nothing (some q) = ap some (append-nil q)

pub and_then-append :
    (xs ys : List ServerMessage) (o : Option (List ServerMessage))
    → and_then ys (and_then xs o) ≡ and_then (xs ++ ys) o
and_then-append xs ys none = refl
and_then-append xs ys (some q) = ap some (append_assoc q xs ys)

-- The messages wait behind what already waits for that node.
pub outbox-send_all :
    (j id : String) (ms : List ServerMessage) (h : AgentHub)
    → outbox j (send_all id ms h) ≡ (if j == id then and_then ms (outbox j h) else outbox j h)
unfolding send_all
outbox-send_all j id [] h = ground (arith, and_then_nothing (outbox j h))
outbox-send_all j id (m ∷ ms) h = ground (
  arith,
  outbox-send_all j id ms (send id m h),
  outbox-send j id m h,
  and_then_twice m ms (outbox j h),
)

pub send_all-SameBut :
    (id : String) (ms : List ServerMessage) (h : AgentHub) → SameBut h (send_all id ms h)
unfolding send_all
send_all-SameBut id [] h = refl
send_all-SameBut id (m ∷ ms) h =
    ground (arith, send_all-SameBut id ms (send id m h), send-SameBut id m h)
