-- ===== src/Hub/Placing/Views.antt =====
-- What `_placement_nodes_with` of src/looma/orchestrator/agents.py shows of a node, and the room
-- that is left on it.
use looma.Base.{
  or_zero, if◌then◌else◌, Bool-cases, ◌==◌, string_eq, nat_eq, ℕ, ◌+◌, ◌*◌, ◌≤◌, String, ◌≡◌, refl,
  ◌⊎◌, inl, inr, true, ◌&&◌, Option, none, some, [], ◌∷◌, arith,
}
use looma.Base.Dict.{lookup, Dict, NodupKeys}
use looma.Placement.{Resources, NodeInfo, plus, free_of}
use looma.Placement.Choice.{FitsBeside, taken_of}
use looma.Hub.{AgentNode, AgentSession}
use looma.Hub.Placing.{placement_view, placement_nodes_with, less_gpus, vram_of, ram_of, or_nothing}

-- Room for `n` tasks on a node where `p` cards are promised and `t` is reserved. The cards promised
-- are reserved as well, and each member is taken off by both.
abbrev pub Room : AgentNode → ℕ → Resources → Resources → ℕ → Type 0
Room node p t w n =
    ((w.gpus ≡ 0) ⊎ (p + t.gpus + (n * w.gpus + n * w.gpus) ≤ node.gpus_free + w.gpus))
    × ((w.vram_bytes ≡ 0) ⊎ (t.vram_bytes + n * w.vram_bytes ≤ vram_of node.hardware))
    × ((w.ram_bytes ≡ 0) ⊎ (t.ram_bytes + n * w.ram_bytes ≤ ram_of node.hardware))
    × ((w.cpus ≡ 0) ⊎ (t.cpus + n * w.cpus ≤ 8000))

pub Room-step :
    (node : AgentNode) (p : ℕ) (t w : Resources) (n : ℕ)
    → Room node (p + w.gpus) (plus t w) w n
    → Room node p t w (n + 1)
unfolding plus
Room-step node p t w n h =
    (grind (arith, h.0), grind (arith, h.1), grind (arith, h.2), grind (arith, h.3))

pub Room-one :
    (node : AgentNode) (p : ℕ) (t w : Resources)
    → FitsBeside (free_of (less_gpus p (placement_view node))) t w
    → Room node p t w 1
unfolding free_of placement_view
Room-one node p t w h =
    (ground (arith, h.3), ground (arith, h.0), ground (arith, h.1), ground (arith, h.2))

pub taken_of-or_nothing : (o : Option Resources) → taken_of o ≡ or_nothing o
taken_of-or_nothing none = refl
taken_of-or_nothing (some r) = refl

placement_nodes_missing :
    (promised : Dict String ℕ) (j : String) (sessions : Dict String AgentSession)
    → lookup j sessions ≡ none
    → lookup j (placement_nodes_with promised sessions) ≡ none
unfolding placement_nodes_with lookup
placement_nodes_missing promised j [] h = refl
placement_nodes_missing promised j ((id, session) ∷ sessions) h =
    ground (arith, h, placement_nodes_missing promised j sessions)

pub placement_nodes-NodupKeys :
    (promised : Dict String ℕ) (sessions : Dict String AgentSession)
    → NodupKeys sessions
    → NodupKeys (placement_nodes_with promised sessions)
unfolding placement_nodes_with
placement_nodes-NodupKeys promised [] u = tt
placement_nodes-NodupKeys promised ((id, session) ∷ sessions) u = ground (
  arith,
  placement_nodes_missing promised id sessions,
  placement_nodes-NodupKeys promised sessions u.1,
)

abbrev Listed : Dict String ℕ → Dict String AgentSession → String → NodeInfo → Type 0
Listed promised sessions j info =
    (session : AgentSession) × (lookup j sessions ≡ some session)
    × (session.node.accepts_tasks ≡ true)
    × (info ≡ less_gpus (or_zero (lookup j promised)) (placement_view session.node))

Listed-cons :
    (promised : Dict String ℕ) (id j : String) (session : AgentSession)
    (sessions : Dict String AgentSession) (info : NodeInfo)
    → lookup id sessions ≡ none
    → Listed promised sessions j info
    → Listed promised ((id, session) ∷ sessions) j info
unfolding lookup
Listed-cons promised id j session sessions info new (s, at, takes, seen) =
    (s, ground (arith, new, at), takes, seen)

lookup-placement_nodes_cons :
    (promised : Dict String ℕ) (j id : String) (session : AgentSession)
    (sessions : Dict String AgentSession)
    → lookup j (placement_nodes_with promised ((id, session) ∷ sessions)) ≡ (
        if session.node.accepts_tasks && j == id
        then some (less_gpus (or_zero (lookup id promised)) (placement_view session.node))
        else lookup j (placement_nodes_with promised sessions))
unfolding placement_nodes_with lookup
lookup-placement_nodes_cons promised j id session sessions = ground arith

pub lookup-placement_nodes :
    (promised : Dict String ℕ) (j : String) (sessions : Dict String AgentSession) (info : NodeInfo)
    → NodupKeys sessions
    → lookup j (placement_nodes_with promised sessions) ≡ some info
    → Listed promised sessions j info
unfolding placement_nodes_with lookup
lookup-placement_nodes promised j [] info u h = cc
lookup-placement_nodes promised j ((id, session) ∷ sessions) info u h =
    let split = lookup-placement_nodes_cons promised j id session sessions in
    elim (Bool-cases (session.node.accepts_tasks && j == id)) [
      | inl here ↦
          let same : j ≡ id = ground (arith, here) in
          let takes : session.node.accepts_tasks ≡ true = ground (arith, here) in
          (session, ground (arith, same), takes, ground (arith, split, here, same, h))
      | inr there ↦
          Listed-cons promised id j session sessions info u.0
            (lookup-placement_nodes promised j sessions info u.1 (ground (arith, split, there, h)))
    ]
