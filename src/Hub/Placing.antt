-- ===== src/Hub/Placing.antt =====
-- Where the hub places tasks and groups, src/looma/orchestrator/agents.py.
pub mod Views
pub mod Held
pub mod Capacity
use looma.Base.{
  ◌==◌, or_zero, eqb, if◌then◌else◌, is_some, Result, ok, err, ◌>>=◌, string_eq, nat_eq, length,
  is_nil, ℕ, zero, suc, ◌+◌, ◌-◌, String, Bool, true, false, Option, none, some, List, [], ◌∷◌,
}
use looma.Base.Dict.{values, lookup, insert, Dict}
use looma.Placement.{Resources, NodeInfo, plus, choose_node, placed, refused, Verdict, Reason}
use looma.Hub.{
  wrong_nodes, not_connected, AgentNode, AgentSession, AgentHub, TaskRecord, AgentError, no_place,
  Hardware, finished,
}

abbrev pub vram_of : Option Hardware → ℕ
vram_of none = 0
vram_of (some hardware) = hardware.vram_free_bytes

abbrev pub ram_of : Option Hardware → ℕ
ram_of none = 0
ram_of (some hardware) = hardware.host_ram_bytes

-- `AgentNode.placement_view`
unfoldable pub placement_view : AgentNode → NodeInfo
placement_view node = record {
  vram_free_bytes = some (vram_of node.hardware);
  ram_bytes = some (ram_of node.hardware);
  cpus = some 8000;
  num_gpus = some node.gpus_free;
  disk_bytes = some 4611686018427387904;
}

abbrev pub less_gpus : ℕ → NodeInfo → NodeInfo
less_gpus taken info = record info { num_gpus = some (or_zero info.num_gpus - taken) }

-- `_placement_nodes_with`: the difference stops at 0, as `max(0, …)` does.
unfoldable pub placement_nodes_with :
    Dict String ℕ → Dict String AgentSession → Dict String NodeInfo
unfolding placement_view
placement_nodes_with promised [] = []
placement_nodes_with promised ((id, session) ∷ sessions) =
    let rest = placement_nodes_with promised sessions in
    if session.node.accepts_tasks
    then (id, less_gpus (or_zero (lookup id promised)) (placement_view session.node)) ∷ rest
    else rest

-- `held[node] = held.get(node, 0) + gpus`
unfoldable pub promise : String → ℕ → Dict String ℕ → Dict String ℕ
promise id gpus held = insert id (or_zero (lookup id held) + gpus) held

abbrev pub nothing : Resources
nothing = record { vram_bytes = 0; ram_bytes = 0; cpus = 0; gpus = 0; disk_bytes = 0 }

abbrev pub or_nothing : Option Resources → Resources
or_nothing none = nothing
or_nothing (some r) = r

-- `held[node] = (held.get(node) or Resources(cpus=0.0)).plus(taken)`
unfoldable pub reserve : String → Resources → Dict String Resources → Dict String Resources
reserve id taken held = insert id (plus (or_nothing (lookup id held)) taken) held

-- What an unfinished task holds.
abbrev pub held_by : Option Resources → Bool → Option Resources
held_by none over = none
held_by (some r) true = none
held_by (some r) false = some r

abbrev pub promise_for : String → Option Resources → Dict String ℕ → Dict String ℕ
promise_for id none held = held
promise_for id (some r) held = promise id r.gpus held

-- The loop of `_promised_gpus`.
unfoldable pub promise_all : Dict String ℕ → List TaskRecord → Dict String ℕ
unfolding promise
promise_all held [] = held
promise_all held (t ∷ ts) =
    promise_all (promise_for t.node_id (held_by t.resources (finished t)) held) ts

-- `_promised_gpus`
unfoldable pub promised_gpus : AgentHub → Dict String ℕ
unfolding promise_all
promised_gpus h = promise_all [] (values h.tasks)

abbrev pub reserve_for : String → Option Resources → Dict String Resources → Dict String Resources
reserve_for id none held = held
reserve_for id (some r) held = reserve id r held

-- The loop of `_reserved`.
unfoldable pub reserve_all : Dict String Resources → List TaskRecord → Dict String Resources
unfolding reserve
reserve_all held [] = held
reserve_all held (t ∷ ts) =
    reserve_all (reserve_for t.node_id (held_by t.resources (finished t)) held) ts

-- `_reserved`
unfoldable pub reserved : AgentHub → Dict String Resources
unfolding reserve_all
reserved h = reserve_all [] (values h.tasks)

-- The choice of one node, with what is already placed taken out.
unfoldable pub choose_for_task : AgentHub → Resources → Verdict
unfolding promised_gpus reserved
choose_for_task h wanted =
    choose_node (placement_nodes_with (promised_gpus h) h.sessions) wanted (reserved h)

-- The loop of `_choose_for_group`, which carries forward what its members take.
unfoldable pub choose_members :
    Dict String AgentSession
    → ℕ
    → Resources
    → (rounds rank : ℕ) → Dict String ℕ
    → Dict String Resources
    → Result AgentError (List String)
choose_members sessions size wanted zero rank promised reserved = ok []
choose_members sessions size wanted (suc rounds) rank promised reserved =
    elim (choose_node (placement_nodes_with promised sessions) wanted reserved) [
      | refused why ↦ err (no_place (rank + 1) size (some why))
      | placed id ↦
          let rest =
            choose_members sessions size wanted rounds (rank + 1) (promise id wanted.gpus promised)
              (reserve id wanted reserved) in
          if id == "" then err (no_place (rank + 1) size none) else (rest >>= λ ids. ok (id ∷ ids))
    ]

-- The check of the nodes that the caller names.
unfoldable pub check_named : Dict String AgentSession → List String → Result AgentError (Unit {0})
check_named sessions [] = ok tt
check_named sessions (id ∷ ids) =
    let rest = check_named sessions ids in
    if is_some (lookup id sessions) then rest else err (not_connected id)

-- `_choose_for_group`; no names are an empty list.
unfoldable pub choose_for_group :
    AgentHub → ℕ → Resources → List String → Result AgentError (List String)
unfolding check_named choose_members
choose_for_group h size wanted node_ids =
    if is_nil node_ids
    then choose_members h.sessions size wanted size 0 (promised_gpus h) (reserved h)
    else (check_named h.sessions node_ids >>= λ _.
        if eqb (length node_ids) size
        then ok node_ids
        else err (wrong_nodes size (length node_ids)))
