-- ===== src/Hub/Reports/Agreement.antt =====
-- What the hub's table says of a node's tasks after the node's report.
use mathlib.Core.Path.{subst}
use looma.Base.{
  ap, Bool, ◌∙◌, not, ◌≢◌, Bool-cases, Option-cases, is_some, ◌==◌, contains, string_eq, nat_eq,
  take, ℕ, ◌+◌, ◌<◌, String, ◌≡◌, refl, sym, ◌⊎◌, inl, inr, true, false, ◌||◌, Option, none, some,
  List, [], ◌∷◌, arith,
}
use looma.Base.Dict.{lookup-insert, insert, lookup, Dict}
use looma.Hub.{AgentSession, AgentHub, TaskRecord, finished}
use looma.Hub.Tasks.{touch}
use looma.Hub.Reports.{
  Telemetry, reconcile, on_telemetry, updated, ids_of, apply_all, TaskState, apply_state,
  adopted_task, on_task_state, grace, is_lost, as_gone, lose, lose_all,
}

abbrev pub map_task : (TaskRecord → TaskRecord) → Option TaskRecord → Option TaskRecord
map_task f none = none
map_task f (some t) = some (f t)

pub lookup-lose_all :
    (j : String) (now : ℕ) (node_id : String) (held : List String) (d : Dict String TaskRecord)
    → lookup j (lose_all now node_id held d) ≡ map_task (lose now node_id held) (lookup j d)
unfolding lose_all lookup
lookup-lose_all j now node_id held [] = refl
lookup-lose_all j now node_id held ((id, t) ∷ d) = elim (string_eq.dec j id) [
  | yes same ↦ ground (arith, same)
  | no differ ↦ ground (arith, differ, lookup-lose_all j now node_id held d)
]

as_gone_finished : (t : TaskRecord) → finished (as_gone t) ≡ true
unfolding as_gone finished string_eq
as_gone_finished t = refl

module _ (now : ℕ) (node_id : String) (held : List String) where
  lose-cases :
      (t : TaskRecord)
      → ((is_lost now node_id held t ≡ true) × (lose now node_id held t ≡ as_gone t))
        ⊎ ((is_lost now node_id held t ≡ false) × (lose now node_id held t ≡ t))
  unfolding lose
  lose-cases t = elim (Bool-cases (is_lost now node_id held t)) [
    | inl lost ↦ inl (lost, ground (arith, lost))
    | inr kept ↦ inr (kept, ground (arith, kept))
  ]

  kept_unfinished :
      (t : TaskRecord)
      → t.node_id ≡ node_id
      → finished t ≡ false
      → is_lost now node_id held t ≡ false
      → (contains held t.task_id ≡ true) ⊎ (now < t.submitted_at + grace)
  unfolding is_lost
  kept_unfinished t at unended kept = ground (arith, at, unended, kept)

  -- What is still unfinished was held, or is too young to be missed.
  lose_unfinished :
      (t : TaskRecord)
      → (lose now node_id held t).node_id ≡ node_id
      → finished (lose now node_id held t) ≡ false
      → (contains held (lose now node_id held t).task_id ≡ true)
        ⊎ (now < (lose now node_id held t).submitted_at + grace)
  lose_unfinished t at unended = elim (lose-cases t) [
    | inl (lost, e) ↦ absurd (ground (arith, e, unended, as_gone_finished t))
    | inr (kept, e) ↦
        subst (λ x. (contains held x.task_id ≡ true) ⊎ (now < x.submitted_at + grace)) (sym e)
          (kept_unfinished t (ground (arith, at, e)) (ground (arith, unended, e)) kept)
  ]

module _ (s : TaskState) (node_id : String) (now : ℕ) (h : AgentHub) where
  -- What one report does: it is applied to the record, or to a new one, or is passed over.
  pub on_task_state-cases :
      ((t : TaskRecord) × (lookup s.task_id h.tasks ≡ some t)
        × (on_task_state s node_id now h ≡ apply_state s t h))
      ⊎ ((lookup s.task_id h.tasks ≡ none)
          × (node_id == "" || is_some (lookup s.task_id h.released) ≡ true)
          × (on_task_state s node_id now h ≡ h))
      ⊎ ((lookup s.task_id h.tasks ≡ none)
          × (node_id == "" || is_some (lookup s.task_id h.released) ≡ false)
          × (on_task_state s node_id now h
              ≡ apply_state s (adopted_task s.task_id node_id now) (
                  touch (record h {
                    tasks = insert s.task_id (adopted_task s.task_id node_id now) h.tasks;
                  }))))
  unfolding on_task_state
  on_task_state-cases = elim (Option-cases (lookup s.task_id h.tasks)) [
    | inr (t, known) ↦ inl (t, known, rw (known, on_task_state) refl)
    | inl unknown ↦ elim (Bool-cases (node_id == "" || is_some (lookup s.task_id h.released))) [
      | inl skip ↦ inr (inl (unknown, skip, ground (arith, unknown, skip)))
      | inr take ↦ inr (inr (unknown, take, ground (arith, unknown, take)))
    ]
  ]

  on_task_state_other :
      (j : String)
      → j ≢ s.task_id
      → lookup j (on_task_state s node_id now h).tasks ≡ lookup j h.tasks
  unfolding apply_state
  on_task_state_other j differ = elim on_task_state-cases [
    | inl (t, known, e) ↦ ground (arith, e, differ, lookup-insert j s.task_id (updated s t) h.tasks)
    | inr (inl (unknown, skip, e)) ↦ ground (arith, e)
    | inr (inr (unknown, take, e)) ↦
        let t = adopted_task s.task_id node_id now in
        ground (
          arith,
          e,
          differ,
          lookup-insert j s.task_id (updated s t) (insert s.task_id t h.tasks),
          lookup-insert j s.task_id t h.tasks,
        )
  ]

  on_task_state_sessions : (on_task_state s node_id now h).sessions ≡ h.sessions
  unfolding apply_state
  on_task_state_sessions = elim on_task_state-cases [
    | inl (t, known, e) ↦ ground (arith, e)
    | inr (inl (unknown, skip, e)) ↦ ground (arith, e)
    | inr (inr (unknown, take, e)) ↦ ground (arith, e)
  ]

  -- A report about a task that is known, or may be adopted, is what the table then says.
  on_task_state_reported :
      node_id ≢ ""
      → is_some (lookup s.task_id h.tasks) || not (is_some (lookup s.task_id h.released)) ≡ true
      → (t : TaskRecord) × (lookup s.task_id (on_task_state s node_id now h).tasks
          ≡ some (updated s t))
  unfolding apply_state
  on_task_state_reported named heard = elim on_task_state-cases [
    | inl (t, known, e) ↦
        (t, ground (arith, e, lookup-insert s.task_id s.task_id (updated s t) h.tasks))
    | inr (inl (unknown, skip, e)) ↦ absurd (ground (arith, unknown, skip, heard, named))
    | inr (inr (unknown, take, e)) ↦
        let t = adopted_task s.task_id node_id now in
        (
          t,
          ground (
            arith,
            e,
            lookup-insert s.task_id s.task_id (updated s t) (insert s.task_id t h.tasks),
          ),
        )
  ]

apply_all_other :
    (j : String) (ss : List TaskState) (node_id : String) (now : ℕ) (h : AgentHub)
    → contains (ids_of ss) j ≡ false
    → lookup j (apply_all ss node_id now h).tasks ≡ lookup j h.tasks
unfolding apply_all
apply_all_other j [] node_id now h out = refl
apply_all_other j (s ∷ ss) node_id now h out =
    apply_all_other j ss node_id now (on_task_state s node_id now h) (ground (arith, out))
    ∙ on_task_state_other s node_id now h j (ground (arith, out))

-- What the table says of one task after a report of the node that lists `held`.
abbrev pub Agrees : ℕ → String → List String → TaskRecord → Type 0
Agrees now node_id held t =
    t.node_id ≡ node_id
    → finished t ≡ false
    → (contains held t.task_id ≡ true) ⊎ (now < t.submitted_at + grace)

lose_all-Agrees :
    (now : ℕ) (node_id : String) (held : List String) (id : String) (t : TaskRecord)
    (d : Dict String TaskRecord)
    → lookup id (lose_all now node_id held d) ≡ some t
    → Agrees now node_id held t
lose_all-Agrees now node_id held id t d e = elim (Option-cases (lookup id d)) [
  | inl none_there ↦ absurd (ground (arith, e, none_there, lookup-lose_all id now node_id held d))
  | inr (old, there) ↦
      let same : lose now node_id held old ≡ t =
        ground (arith, e, there, lookup-lose_all id now node_id held d) in
      subst (Agrees now node_id held) same (lose_unfinished now node_id held old)
]

-- What is on another node, has ended, or is younger than the grace.
abbrev pub IsSpared : ℕ → String → TaskRecord → Type 0
IsSpared now node_id t =
    (t.node_id ≢ node_id) ⊎ ((finished t ≡ true) ⊎ (now < t.submitted_at + grace))

lose-IsSpared :
    (now : ℕ) (node_id : String) (held : List String) (t : TaskRecord)
    → IsSpared now node_id t
    → lose now node_id held t ≡ t
unfolding lose is_lost
lose-IsSpared now node_id held t (inl elsewhere) = ground (arith, elsewhere)
lose-IsSpared now node_id held t (inr (inl ended)) = ground (arith, ended)
lose-IsSpared now node_id held t (inr (inr young)) = ground (arith, young)

on_telemetry_others :
    (is_local : String → Option Bool) (r : Telemetry) (now : ℕ) (h : AgentHub)
    (session : AgentSession) (id : String)
    → lookup r.node_id h.sessions ≡ some session
    → session.node.node_id ≡ r.node_id
    → contains (ids_of r.tasks) id ≡ false
    → lookup id (on_telemetry is_local r now h).tasks
      ≡ map_task (lose now r.node_id (ids_of r.tasks)) (lookup id h.tasks)
unfolding on_telemetry reconcile
on_telemetry_others is_local r now h session id at named out =
    rw (at, on_telemetry)
      (rw named (
        lookup-lose_all id now r.node_id (ids_of r.tasks) _
        ∙ ap (map_task (lose now r.node_id (ids_of r.tasks)))
            (apply_all_other id r.tasks r.node_id now _ out)))

-- After the report of a connected node, an unfinished task that the table has on that node is one that
-- the report lists, or is younger than the grace; and what the report does not list is as it was, save
-- that the unfinished tasks of this node that are past the grace are gone: what is on another node, has
-- ended, or is younger than the grace stays.
pub on_telemetry-Agrees :
    (is_local : String → Option Bool) (r : Telemetry) (now : ℕ) (h : AgentHub)
    (session : AgentSession) (id : String)
    → lookup r.node_id h.sessions ≡ some session
    → session.node.node_id ≡ r.node_id
    → ((t : TaskRecord)
        → lookup id (on_telemetry is_local r now h).tasks ≡ some t
        → Agrees now r.node_id (ids_of r.tasks) t)
      × (contains (ids_of r.tasks) id ≡ false
          → lookup id (on_telemetry is_local r now h).tasks
            ≡ map_task (lose now r.node_id (ids_of r.tasks)) (lookup id h.tasks))
      × ((t : TaskRecord)
          → contains (ids_of r.tasks) id ≡ false
          → lookup id h.tasks ≡ some t
          → IsSpared now r.node_id t
          → lookup id (on_telemetry is_local r now h).tasks ≡ some t)
unfolding on_telemetry reconcile
on_telemetry-Agrees is_local r now h session id at named =
    let others = on_telemetry_others is_local r now h session id at named in
    (
      rw (at, on_telemetry)
          (rw named (λ t e. lose_all-Agrees now r.node_id (ids_of r.tasks) id t _ e)),
      others,
      λ t out there spared.
          others out
          ∙ ap (map_task (lose now r.node_id (ids_of r.tasks))) there
          ∙ ap some (lose-IsSpared now r.node_id (ids_of r.tasks) t spared),
    )
