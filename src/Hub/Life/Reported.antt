-- ===== src/Hub/Life/Reported.antt =====
-- What a report and the telemetry of a node do to the life of a task: `on_task_state` and
-- `on_telemetry` of src/looma/orchestrator/agents.py.
use mathlib.Core.Path.{subst}
use looma.Base.{
  Option-cases, if_either, string_eq, nat_eq, take, ℕ, String, ◌≡◌, refl, sym, ap, ◌∙◌, inl, inr,
  Bool, Option, none, some, List, [], ◌∷◌, arith,
}
use looma.Base.Dict.{lookup, insert, Dict, NodupKeys, lookup-insert}
use looma.Hub.{AgentHub, TaskRecord}
use looma.Hub.Reports.{
  TaskState, updated, apply_state, adopted_task, on_task_state, apply_all, lose, as_gone, is_lost,
  lose_all, reconcile, on_telemetry, seen, ids_of,
}
use looma.Hub.Reports.Agreement.{on_task_state-cases, lookup-lose_all, map_task}
use looma.Hub.Life.{Telemetry, SameTask, Step, tells, absent, adopted, moves}
use looma.Hub.Tasks.{touch}
use looma.Hub.Life.Changes.{
  Evolves, Evolves-refl, Evolves-trans, Evolves-to, Evolves-insert, SameTask-refl,
}

updated-SameTask : (s : TaskState) (t : TaskRecord) → SameTask t (updated s t)
unfolding updated
updated-SameTask s t = record {
  same_id = refl;
  same_node = refl;
  same_command = refl;
  same_resources = refl;
  same_group = refl;
  same_rank = refl;
  same_start = refl;
}

as_gone-SameTask : (t : TaskRecord) → SameTask t (as_gone t)
unfolding as_gone
as_gone-SameTask t = record {
  same_id = refl;
  same_node = refl;
  same_command = refl;
  same_resources = refl;
  same_group = refl;
  same_rank = refl;
  same_start = refl;
}

lose-SameTask :
    (now : ℕ) (node_id : String) (held : List String) (t : TaskRecord)
    → SameTask t (lose now node_id held t)
unfolding lose
lose-SameTask now node_id held t =
    if_either (SameTask t) (is_lost now node_id held t) (as_gone-SameTask t) (SameTask-refl t)

apply_state-Evolves :
    (s : TaskState) (t : TaskRecord) (h : AgentHub)
    → lookup s.task_id h.tasks ≡ some t
    → Evolves tells h.tasks (apply_state s t h).tasks
unfolding apply_state
apply_state-Evolves s t h known =
    Evolves-insert tells s.task_id (updated s t) h.tasks
      (subst (λ o. Step tells o (some (updated s t))) (sym known) (moves (updated-SameTask s t)))

pub on_task_state-Evolves :
    (s : TaskState) (node_id : String) (now : ℕ) (h : AgentHub)
    → Evolves tells h.tasks (on_task_state s node_id now h).tasks
on_task_state-Evolves s node_id now h = elim (on_task_state-cases s node_id now h) [
  | inl (t, known, e) ↦
      Evolves-to h.tasks (ap (λ (x : AgentHub). x.tasks) e) (apply_state-Evolves s t h known)
  | inr (inl (unknown, skip, e)) ↦
      Evolves-to h.tasks (ap (λ (x : AgentHub). x.tasks) e) (Evolves-refl tells h.tasks)
  | inr (inr (unknown, take, e)) ↦
      let t = adopted_task s.task_id node_id now in
      let h' = touch (record h { tasks = insert s.task_id t h.tasks }) in
      let new = subst (λ o. Step tells o (some t)) (sym unknown) (adopted t) in
      let known : lookup s.task_id h'.tasks ≡ some t =
        ground (arith, lookup-insert s.task_id s.task_id t h.tasks) in
      Evolves-to h.tasks (ap (λ (x : AgentHub). x.tasks) e) (
        Evolves-trans h.tasks h'.tasks (apply_state s t h').tasks
          (Evolves-insert tells s.task_id t h.tasks new) (apply_state-Evolves s t h' known))
]

apply_all-Evolves :
    (ss : List TaskState) (node_id : String) (now : ℕ) (h : AgentHub)
    → Evolves tells h.tasks (apply_all ss node_id now h).tasks
unfolding apply_all
apply_all-Evolves [] node_id now h = Evolves-refl tells h.tasks
apply_all-Evolves (s ∷ ss) node_id now h =
    Evolves-trans h.tasks (on_task_state s node_id now h).tasks _
      (on_task_state-Evolves s node_id now h)
      (apply_all-Evolves ss node_id now (on_task_state s node_id now h))

lose_all-NodupKeys :
    (now : ℕ) (node_id : String) (held : List String) (d : Dict String TaskRecord)
    → NodupKeys d
    → NodupKeys (lose_all now node_id held d)
unfolding lose_all
lose_all-NodupKeys now node_id held [] u = tt
lose_all-NodupKeys now node_id held ((id, t) ∷ d) (new, u) = (
  lookup-lose_all id now node_id held d ∙ ap (map_task (lose now node_id held)) new,
  lose_all-NodupKeys now node_id held d u,
)

lose_at :
    (now : ℕ) (node_id : String) (held : List String) (o : Option TaskRecord)
    → Step tells o (map_task (lose now node_id held) o)
lose_at now node_id held none = absent tells
lose_at now node_id held (some t) = moves (lose-SameTask now node_id held t)

reconcile-Evolves :
    (node_id : String) (held : List String) (now : ℕ) (h : AgentHub)
    → Evolves tells h.tasks (reconcile node_id held now h).tasks
unfolding reconcile
reconcile-Evolves node_id held now h u = (
  lose_all-NodupKeys now node_id held h.tasks u,
  λ id.
      subst (Step tells (lookup id h.tasks)) (sym (lookup-lose_all id now node_id held h.tasks))
        (lose_at now node_id held (lookup id h.tasks)),
)

pub on_telemetry-Evolves :
    (is_local : String → Option Bool) (r : Telemetry) (now : ℕ) (h : AgentHub)
    → Evolves tells h.tasks (on_telemetry is_local r now h).tasks
unfolding on_telemetry
on_telemetry-Evolves is_local r now h = elim (Option-cases (lookup r.node_id h.sessions)) [
  | inl away ↦ rw (away, on_telemetry) (Evolves-refl tells h.tasks)
  | inr (session, at) ↦
      let node = seen is_local r now session.node in
      let h' = record h {
        sessions = insert r.node_id (record session { node = node }) h.sessions;
      } in
      let h'' = apply_all r.tasks node.node_id now h' in
      rw (at, on_telemetry)
        (Evolves-trans h.tasks h''.tasks (reconcile node.node_id (ids_of r.tasks) now h'').tasks
          (apply_all-Evolves r.tasks node.node_id now h')
          (reconcile-Evolves node.node_id (ids_of r.tasks) now h''))
]
