-- ===== src/Hub/Gateway/Streams.antt =====
-- Streams of one node that overlap: `Attach` of src/looma/orchestrator/agents.py.
use mathlib.Core.Path.{subst}
use looma.Base.{
  sym, eqb, if◌then◌else◌, Option-cases, ◌==◌, string_eq, nat_eq, ℕ, String, ◌≡◌, refl, ap, ◌∙◌,
  inl, inr, Bool, true, false, ◌&&◌, Option, none, some, List, [], ◌∷◌, arith,
}
use looma.Base.Dict.{
  lookup-nil, erase, lookup, NodupKeys, lookup-insert, lookup-erase, insert-NodupKeys,
  erase-NodupKeys,
}
use looma.Releases.{ReleaseStore}
use looma.Hub.{AgentHub, AgentSession}
use looma.Hub.Gateway.{Register, KeyCheck, admitted, raised, unknown, attach, detach, node_from}

-- What happens to the streams of the agents: one opens with a registration, or one ends.
pub data Event : Type 0 where
  opens : KeyCheck → Register → (serial now : ℕ) → Event
  ends : (node_id : String) → (serial : ℕ) → Event

module _ (bucket : String → ℕ) (releases : Option ReleaseStore) (base : String) where
  unfoldable pub handle : Event → AgentHub → AgentHub
  handle (opens check r serial now) h = (attach bucket releases base check r serial now h).0
  handle (ends node_id serial) h = detach node_id serial h

  unfoldable pub handle_all : List Event → AgentHub → AgentHub
  unfolding handle
  handle_all [] h = h
  handle_all (e ∷ es) h = handle_all es (handle e h)

  -- The serial of the newest stream of a node that was admitted and has not ended.
  abbrev pub newest : String → Event → Option ℕ → Option ℕ
  newest j (opens admitted r serial now) last = if j == r.node_id then some serial else last
  newest j (opens (raised e) r serial now) last = last
  newest j (opens unknown r serial now) last = last
  newest j (ends node_id serial) none = none
  newest j (ends node_id serial) (some n) = if j == node_id && eqb n serial then none else some n

  abbrev pub newest_of : String → Option ℕ → List Event → Option ℕ
  newest_of j last [] = last
  newest_of j last (e ∷ es) = newest_of j (newest j e last) es

  abbrev pub serial_of : Option AgentSession → Option ℕ
  serial_of none = none
  serial_of (some session) = some session.serial

  abbrev owns : ℕ → Option AgentSession → Bool
  owns serial none = false
  owns serial (some session) = eqb session.serial serial

  lookup-detach :
      (j node_id : String) (serial : ℕ) (h : AgentHub)
      → NodupKeys h.sessions
      → lookup j (detach node_id serial h).sessions ≡ (
          if j == node_id && owns serial (lookup node_id h.sessions)
          then none
          else lookup j h.sessions)
  unfolding detach
  lookup-detach j node_id serial h u = elim (Option-cases (lookup node_id h.sessions)) [
    | inl away ↦ ground (arith, away)
    | inr (session, there) ↦ ground (arith, there, lookup-erase j node_id h.sessions u)
  ]

  newest-detach :
      (j node_id : String) (serial : ℕ) (h : AgentHub)
      → NodupKeys h.sessions
      → serial_of (lookup j (detach node_id serial h).sessions)
        ≡ newest j (ends node_id serial) (serial_of (lookup j h.sessions))
  newest-detach j node_id serial h u =
      let split = lookup-detach j node_id serial h u in
      elim (Option-cases (lookup j h.sessions)) [
        | inl absent ↦ ground (arith, split, absent)
        | inr (s, at) ↦ elim (string_eq.dec j node_id) [
          | yes same ↦ ground (arith, split, at, same)
          | no differ ↦ ground (arith, split, at, differ)
        ]
      ]

  newest-handle :
      (j : String) (e : Event) (h : AgentHub)
      → NodupKeys h.sessions
      → serial_of (lookup j (handle e h).sessions) ≡ newest j e (serial_of (lookup j h.sessions))
  unfolding handle attach
  newest-handle j (opens admitted r serial now) h u = ground (
    arith,
    lookup-insert j r.node_id (record { serial = serial; node = node_from r now; outbox = [] })
        h.sessions,
  )
  newest-handle j (opens (raised e) r serial now) h u = refl
  newest-handle j (opens unknown r serial now) h u = refl
  newest-handle j (ends node_id serial) h u = newest-detach j node_id serial h u

  part-NodupKeys :
      (own : Bool) (node_id : String) (h : AgentHub)
      → NodupKeys h.sessions
      → NodupKeys (if own then record h { sessions = erase node_id h.sessions } else h).sessions
  part-NodupKeys true node_id h u = erase-NodupKeys node_id h.sessions u
  part-NodupKeys false node_id h u = u

  handle-NodupKeys :
      (e : Event) (h : AgentHub) → NodupKeys h.sessions → NodupKeys (handle e h).sessions
  unfolding handle attach detach
  handle-NodupKeys (opens admitted r serial now) h u =
      insert-NodupKeys r.node_id (record { serial = serial; node = node_from r now; outbox = [] })
        h.sessions u
  handle-NodupKeys (opens (raised e) r serial now) h u = u
  handle-NodupKeys (opens unknown r serial now) h u = u
  handle-NodupKeys (ends node_id serial) h u = elim (Option-cases (lookup node_id h.sessions)) [
    | inl away ↦ rw (away, detach) u
    | inr (session, there) ↦
        rw (there, detach) (part-NodupKeys (eqb session.serial serial) node_id h u)
  ]

  -- The admitted stream of a node that opened last, and what happened since.
  abbrev pub last_open : String → List Event → Option (ℕ × List Event)
  last_open j [] = none
  last_open j (opens admitted r serial now ∷ es) = elim (last_open j es) [
    | some later ↦ some later
    | none ↦ if j == r.node_id then some (serial, es) else none
  ]
  last_open j (opens (raised e) r serial now ∷ es) = last_open j es
  last_open j (opens unknown r serial now ∷ es) = last_open j es
  last_open j (ends node_id serial ∷ es) = last_open j es

  -- A stream of a node has ended.
  abbrev pub has_ended : String → ℕ → List Event → Bool
  has_ended j n [] = false
  has_ended j n (opens check r serial now ∷ es) = has_ended j n es
  has_ended j n (ends node_id serial ∷ es) =
      let rest = has_ended j n es in if j == node_id && eqb n serial then true else rest

  abbrev pub unless_ended : String → Option (ℕ × List Event) → Option ℕ
  unless_ended j none = none
  unless_ended j (some (n, es)) = if has_ended j n es then none else some n

  abbrev still : String → Option ℕ → List Event → Option (ℕ × List Event)
  still j none es = none
  still j (some n) es = some (n, es)

  abbrev or_before : Option (ℕ × List Event) → Option (ℕ × List Event) → Option (ℕ × List Event)
  or_before none before = before
  or_before (some later) before = some later

  or_before-none : (o : Option (ℕ × List Event)) → or_before o none ≡ o
  or_before-none none = refl
  or_before-none (some later) = refl

  newest_of-last_open :
      (j : String) (o : Option ℕ) (es : List Event)
      → newest_of j o es ≡ unless_ended j (or_before (last_open j es) (still j o es))
  newest_of-last_open j none [] = refl
  newest_of-last_open j (some n) [] = refl
  newest_of-last_open j none (opens admitted r serial now ∷ es) =
      let fresh = newest_of-last_open j (some serial) es in
      let kept = newest_of-last_open j none es in
      elim (Option-cases (last_open j es)) [
        | inl nothing ↦ ground (arith, nothing, fresh, kept)
        | inr (later, at) ↦ ground (arith, at, fresh, kept)
      ]
  newest_of-last_open j (some n) (opens admitted r serial now ∷ es) =
      let fresh = newest_of-last_open j (some serial) es in
      let kept = newest_of-last_open j (some n) es in
      elim (Option-cases (last_open j es)) [
        | inl nothing ↦ ground (arith, nothing, fresh, kept)
        | inr (later, at) ↦ ground (arith, at, fresh, kept)
      ]
  newest_of-last_open j none (opens (raised e) r serial now ∷ es) = newest_of-last_open j none es
  newest_of-last_open j (some n) (opens (raised e) r serial now ∷ es) =
      let kept = newest_of-last_open j (some n) es in
      elim (Option-cases (last_open j es)) [
        | inl nothing ↦ ground (arith, nothing, kept)
        | inr (later, at) ↦ ground (arith, at, kept)
      ]
  newest_of-last_open j none (opens unknown r serial now ∷ es) = newest_of-last_open j none es
  newest_of-last_open j (some n) (opens unknown r serial now ∷ es) =
      let kept = newest_of-last_open j (some n) es in
      elim (Option-cases (last_open j es)) [
        | inl nothing ↦ ground (arith, nothing, kept)
        | inr (later, at) ↦ ground (arith, at, kept)
      ]
  newest_of-last_open j none (ends node_id serial ∷ es) = newest_of-last_open j none es
  newest_of-last_open j (some n) (ends node_id serial ∷ es) =
      let kept = newest_of-last_open j (some n) es in
      let parted = newest_of-last_open j none es in
      elim (Option-cases (last_open j es)) [
        | inl nothing ↦ ground (arith, nothing, kept, parted)
        | inr (later, at) ↦ ground (arith, at, kept, parted)
      ]

  tracks :
      (j : String) (es : List Event) (h : AgentHub)
      → NodupKeys h.sessions
      → serial_of (lookup j (handle_all es h).sessions)
        ≡ newest_of j (serial_of (lookup j h.sessions)) es
  unfolding handle_all
  tracks j [] h u = refl
  tracks j (e ∷ es) h u =
      tracks j es (handle e h) (handle-NodupKeys e h u)
      ∙ ap (λ o. newest_of j o es) (newest-handle j e h u)

  -- From a hub without sessions, after any streams of any nodes: the session of a node is that of the
  -- admitted stream that opened last for it, unless this stream has ended; then the node has none,
  -- also if an older stream, which the newer one replaced, goes on. The late end of a stream that was
  -- replaced does not part the node.
  pub handle_all-newest :
      (j : String) (es : List Event) (h : AgentHub)
      → h.sessions ≡ []
      → serial_of (lookup j (handle_all es h).sessions) ≡ unless_ended j (last_open j es)
  handle_all-newest j es h empty =
      let once : NodupKeys h.sessions = subst NodupKeys (sym empty) tt in
      let away : serial_of (lookup j h.sessions) ≡ none =
        ap (λ d. serial_of (lookup j d)) empty ∙ ap serial_of (lookup-nil j) in
      let last = newest_of-last_open j none es in
      tracks j es h once
      ∙ ap (λ o. newest_of j o es) away
      ∙ last
      ∙ ap (unless_ended j) (or_before-none (last_open j es))
