-- ===== src/Hub/Placing/Held.antt =====
-- What `_promised_gpus` and `_reserved` of src/looma/orchestrator/agents.py add up.
use looma.Base.{
  or_zero, if◌then◌else◌, ◌==◌, string_eq, nat_eq, ℕ, ◌+◌, String, ◌≡◌, sym, ap, ◌∙◌, Option, none,
  some, List, [], ◌∷◌, arith,
}
use looma.Base.Dict.{values, lookup, Dict, lookup-insert, lookup-nil}
use looma.Placement.{Resources, plus}
use looma.Hub.{TaskRecord, finished, AgentHub}
use looma.Hub.Placing.{
  promised_gpus, promise_all, reserved, reserve_all, held_by, or_nothing, promise, reserve, nothing,
  promise_for, reserve_for,
}

-- What a task holds on a node.
abbrev pub held_on : String → TaskRecord → Resources
held_on id t = if id == t.node_id then or_nothing (held_by t.resources (finished t)) else nothing

abbrev pub sum_held : String → List TaskRecord → Resources
sum_held id [] = nothing
sum_held id (t ∷ ts) = plus (held_on id t) (sum_held id ts)

pub lookup-promise :
    (j id : String) (g : ℕ) (held : Dict String ℕ)
    → or_zero (lookup j (promise id g held)) ≡ or_zero (lookup j held) + (if j == id then g else 0)
unfolding promise
lookup-promise j id g held = ground (arith, lookup-insert j id (or_zero (lookup id held) + g) held)

pub plus_empty : (a : Resources) → (plus a nothing ≡ a) × (plus nothing a ≡ a)
unfolding plus
plus_empty a = ground arith

plus_assoc : (a b c : Resources) → plus (plus a b) c ≡ plus a (plus b c)
unfolding plus
plus_assoc a b c = ground arith

pub lookup-reserve :
    (j id : String) (r : Resources) (held : Dict String Resources)
    → or_nothing (lookup j (reserve id r held))
      ≡ plus (or_nothing (lookup j held)) (if j == id then r else nothing)
unfolding reserve
lookup-reserve j id r held = ground (
  arith,
  lookup-insert j id (plus (or_nothing (lookup id held)) r) held,
  plus_empty (or_nothing (lookup j held)),
)

promise_for-held :
    (j id : String) (o : Option Resources) (held : Dict String ℕ)
    → or_zero (lookup j (promise_for id o held))
      ≡ or_zero (lookup j held) + (if j == id then or_nothing o else nothing).gpus
promise_for-held j id none held = ground arith
promise_for-held j id (some r) held = ground (arith, lookup-promise j id r.gpus held)

reserve_for-held :
    (j id : String) (o : Option Resources) (held : Dict String Resources)
    → or_nothing (lookup j (reserve_for id o held))
      ≡ plus (or_nothing (lookup j held)) (if j == id then or_nothing o else nothing)
reserve_for-held j id none held = ground (arith, plus_empty (or_nothing (lookup j held)))
reserve_for-held j id (some r) held = lookup-reserve j id r held

promise_all-sum :
    (j : String) (held : Dict String ℕ) (ts : List TaskRecord)
    → or_zero (lookup j (promise_all held ts)) ≡ or_zero (lookup j held) + (sum_held j ts).gpus
unfolding promise_all plus
promise_all-sum j held [] = omega arith
promise_all-sum j held (t ∷ ts) = omega (
  arith,
  promise_all-sum j (promise_for t.node_id (held_by t.resources (finished t)) held) ts,
  promise_for-held j t.node_id (held_by t.resources (finished t)) held,
)

reserve_all-sum :
    (j : String) (held : Dict String Resources) (ts : List TaskRecord)
    → or_nothing (lookup j (reserve_all held ts))
      ≡ plus (or_nothing (lookup j held)) (sum_held j ts)
unfolding reserve_all
reserve_all-sum j held [] = sym (plus_empty (or_nothing (lookup j held))).0
reserve_all-sum j held (t ∷ ts) =
    let now = reserve_for t.node_id (held_by t.resources (finished t)) held in
    reserve_all-sum j now ts
    ∙ ap (λ r. plus r (sum_held j ts))
        (reserve_for-held j t.node_id (held_by t.resources (finished t)) held)
    ∙ plus_assoc _ _ _

-- The cards promised on a node, and all that is reserved there, are the sums of what its
-- unfinished tasks asked for: both sums count the same cards.
pub reserved-promised_gpus :
    (j : String) (h : AgentHub)
    → (or_zero (lookup j (promised_gpus h)) ≡ (sum_held j (values h.tasks)).gpus)
      × (or_nothing (lookup j (reserved h)) ≡ sum_held j (values h.tasks))
unfolding promised_gpus reserved
reserved-promised_gpus j h = (
  ground (arith, promise_all-sum j [] (values h.tasks), lookup-nil {V = ℕ} j),
  ground (
    arith,
    reserve_all-sum j [] (values h.tasks),
    lookup-nil {V = Resources} j,
    plus_empty (sum_held j (values h.tasks)),
  ),
)
