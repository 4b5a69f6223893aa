-- ===== src/Commands/Owning.antt =====
-- Whose ports are open: `_task_forward` and `_allow_inbound` of agent/looma_agent/control/tasks.py.
use looma.Base.{
  ◌∙◌, is_nil, if◌then◌else◌, Bool-cases, contains, string_eq, nat_eq, ℕ, String, ◌≡◌, refl, ◌⊎◌,
  inl, inr, true, not, ◌&&◌, ◌||◌, some, List, [], ◌∷◌, ◌++◌, arith,
}
use looma.Base.Dict.{insert-NodupKeys, NodupKeys, lookup, insert, Dict, lookup-insert}
use looma.Base.Filter.{filter}
use looma.Commands.{
  own_host, mine, PortMap, note_ports, allow_inbound, Group, TaskCommands, union, without,
  or_none_of,
}

contains-union : (p : ℕ) (a b : List ℕ) → contains (union a b) p ≡ contains b p || contains a p
unfolding union
contains-union p a [] = refl
contains-union p a (q ∷ b) = ground (arith, contains-union p a b)

contains-append : (p : ℕ) (a b : List ℕ) → contains (a ++ b) p ≡ contains a p || contains b p
contains-append p [] b = refl
contains-append p (q ∷ a) b = ground (arith, contains-append p a b)

pub contains-without :
    (p : ℕ) (gone a : List ℕ) → contains (without gone a) p ≡ contains a p && not (contains gone p)
unfolding without filter
contains-without p gone [] = refl
contains-without p gone (q ∷ a) = ground (arith, contains-without p gone a)

-- A port that some task asked for.
abbrev pub Owned : Dict String (List ℕ) → ℕ → Type 0
Owned ports p =
    (task_id : String) × (ps : List ℕ) × (lookup task_id ports ≡ some ps) × (contains ps p ≡ true)

-- No port is open but those that tasks asked for.
abbrev pub IsOwned : TaskCommands → Type 0
IsOwned c = (p : ℕ) → contains c.allowed_ports p ≡ true → Owned c.task_ports p

Owned-insert :
    (task_id : String) (more : List ℕ) (ports : Dict String (List ℕ)) (p : ℕ)
    → (Owned ports p) ⊎ (contains more p ≡ true)
    → Owned (insert task_id (or_none_of (lookup task_id ports) ++ more) ports) p
Owned-insert task_id more ports p (inr new) = (
  task_id,
  or_none_of (lookup task_id ports) ++ more,
  ground (arith, lookup-insert task_id task_id (or_none_of (lookup task_id ports) ++ more) ports),
  ground (arith, contains-append p (or_none_of (lookup task_id ports)) more, new),
)
Owned-insert task_id more ports p (inl (t, ps, at, held)) = elim (string_eq.dec t task_id) [
  | yes same ↦ (
    task_id,
    or_none_of (lookup task_id ports) ++ more,
    ground (arith, lookup-insert task_id task_id (or_none_of (lookup task_id ports) ++ more) ports),
    ground (arith, contains-append p (or_none_of (lookup task_id ports)) more, same, at, held),
  )
  | no differ ↦ (
    t,
    ps,
    ground (
      arith,
      differ,
      at,
      lookup-insert t task_id (or_none_of (lookup task_id ports) ++ more) ports,
    ),
    held,
  )
]

note_ports-IsOwned :
    (task_id : String) (ports : List ℕ) (c : TaskCommands)
    → IsOwned c
    → IsOwned (note_ports task_id ports c)
      × ((p : ℕ) → contains ports p ≡ true → Owned (note_ports task_id ports c).task_ports p)
unfolding note_ports
note_ports-IsOwned task_id [] c owned = (owned, λ p new. absurd (ground (arith, new)))
note_ports-IsOwned task_id (q ∷ ps) c owned = (
  λ p held. Owned-insert task_id (q ∷ ps) c.task_ports p (inl (owned p held)),
  λ p new. Owned-insert task_id (q ∷ ps) c.task_ports p (inr new),
)

-- Opening ports that some task asked for.
allow_inbound-IsOwned :
    (ports : List ℕ) (host : String) (c : TaskCommands)
    → ((p : ℕ) → contains ports p ≡ true → Owned c.task_ports p)
    → IsOwned c
    → IsOwned (allow_inbound ports host c)
unfolding allow_inbound
allow_inbound-IsOwned ports host c asked owned p held = elim (Bool-cases (contains ports p)) [
  | inl new ↦ asked p new
  | inr old ↦ owned p (ground (arith, held, old, contains-union p c.allowed_ports ports))
]

pub open_all-IsOwned :
    (task_id : String) (group : Group) (m : PortMap) (c : TaskCommands)
    → IsOwned c
    → let noted = note_ports task_id (mine group m) c in
      let host = own_host group m in
      let outside = if is_nil m.external then noted else allow_inbound m.external host noted in
      IsOwned outside
      × IsOwned (allow_inbound (or_none_of (lookup group.rank m.ports)) host outside)
unfolding allow_inbound
open_all-IsOwned task_id group m c owned = go m.external refl
  where
    own : List ℕ
    own = or_none_of (lookup group.rank m.ports)

    noted : TaskCommands
    noted = note_ports task_id (mine group m) c

    asked : (p : ℕ) → contains own p || contains m.external p ≡ true → Owned noted.task_ports p
    asked p h =
        (note_ports-IsOwned task_id (mine group m) c owned).1 p
          (contains-append p own m.external ∙ h)

    go :
        (external : List ℕ)
        → m.external ≡ external
        → let outside =
            if is_nil external then noted else allow_inbound external (own_host group m) noted in
          IsOwned outside × IsOwned (allow_inbound own (own_host group m) outside)
    go [] e =
        let first = (note_ports-IsOwned task_id (mine group m) c owned).0 in
        (
          first,
          allow_inbound-IsOwned own (own_host group m) noted
              (λ p new. asked p (ground (arith, new))) first,
        )
    go (q ∷ qs) e =
        let outside = allow_inbound (q ∷ qs) (own_host group m) noted in
        let first =
          allow_inbound-IsOwned (q ∷ qs) (own_host group m) noted
            (λ p new. asked p (ground (arith, new, e)))
            (note_ports-IsOwned task_id (mine group m) c owned).0 in
        (
          first,
          allow_inbound-IsOwned own (own_host group m) outside
              (λ p new. asked p (ground (arith, new))) first,
        )

pub note_ports-NodupKeys :
    (task_id : String) (ports : List ℕ) (c : TaskCommands)
    → NodupKeys c.task_ports
    → NodupKeys (note_ports task_id ports c).task_ports
unfolding note_ports
note_ports-NodupKeys task_id [] c u = u
note_ports-NodupKeys task_id (q ∷ ps) c u = insert-NodupKeys task_id _ c.task_ports u
