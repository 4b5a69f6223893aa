-- ===== src/Hub/Life/Ended.antt =====
-- What stopping, releasing, forgetting and pruning do to the life of a task, in
-- src/looma/orchestrator/agents.py.
use looma.Base.{
  Option-cases, Result-cases, string_eq, nat_eq, ℕ, String, ◌≡◌, refl, ap, ◌∙◌, inl, inr, List, [],
  ◌∷◌,
}
use looma.Base.Texts.{join}
use looma.Base.Dict.{erase, values, lookup}
use looma.Hub.{stop_task, send, release_task, AgentHub}
use looma.Hub.Tasks.Outbox.{send-SameBut}
use looma.Hub.Life.{stop_group, stop, forget_group}
use looma.Hub.Tasks.{locate, stop, release, let_go}
use looma.Hub.Ending.Forgetting.{drop_task_lem}
use looma.Hub.Ending.{
  stop_all, stop_group, drop_task, drop_all, forget_record, forget_group, forget_all,
}
use looma.Hub.Life.{drops}
use looma.Hub.Life.Changes.{Evolves-erase, Evolves, Evolves-refl, Evolves-trans, Evolves-to}

pub stop_tasks : (id reason : String) (h : AgentHub) → (stop id reason h).0.tasks ≡ h.tasks
unfolding stop
stop_tasks id reason h = elim (Result-cases (locate id h)) [
  | inl (e, away) ↦ rw (away, stop) refl
  | inr ((t, session), at) ↦
      rw (at, stop)
        (ap (λ (x : AgentHub). x.tasks)
          (send-SameBut t.node_id (stop_task (join "stop-" id) id reason) h))
]

stop_all_tasks :
    (reason : String) (ids : List String) (h : AgentHub) → (stop_all reason ids h).tasks ≡ h.tasks
unfolding stop_all
stop_all_tasks reason [] h = refl
stop_all_tasks reason (id ∷ ids) h =
    stop_all_tasks reason ids (stop id reason h).0 ∙ stop_tasks id reason h

pub release-Evolves :
    (id : String) (now : ℕ) (h : AgentHub) → Evolves drops h.tasks (release id now h).0.tasks
unfolding release let_go
release-Evolves id now h = elim (Result-cases (locate id h)) [
  | inl (e, away) ↦ rw (away, release) (Evolves-refl drops h.tasks)
  | inr ((t, session), at) ↦
      let m = release_task (join "rel-" id) id in
      let kept : (send t.node_id m h).tasks ≡ h.tasks =
        ap (λ (x : AgentHub). x.tasks) (send-SameBut t.node_id m h) in
      rw (at, release) (Evolves-to h.tasks (ap (erase id) kept) (Evolves-erase id h.tasks))
]

drop_all-Evolves :
    (ids : List String) (now : ℕ) (h : AgentHub) → Evolves drops h.tasks (drop_all ids now h).tasks
unfolding drop_all
drop_all-Evolves [] now h = Evolves-refl drops h.tasks
drop_all-Evolves (id ∷ ids) now h =
    Evolves-trans h.tasks (drop_task id now h).tasks (drop_all ids now (drop_task id now h)).tasks
      (Evolves-to h.tasks (drop_task_lem id now h).0 (Evolves-erase id h.tasks))
      (drop_all-Evolves ids now (drop_task id now h))

pub forget_group-Evolves :
    (id : String) (now : ℕ) (h : AgentHub) → Evolves drops h.tasks (forget_group id now h).0.tasks
unfolding forget_group forget_record
forget_group-Evolves id now h = elim (Option-cases (lookup id h.groups)) [
  | inl away ↦ rw (away, forget_group) (Evolves-refl drops h.tasks)
  | inr (g, at) ↦ rw (at, forget_group) (drop_all-Evolves (values g.tasks) now h)
]

pub forget_all-Evolves :
    (ids : List String) (now : ℕ) (h : AgentHub)
    → Evolves drops h.tasks (forget_all ids now h).tasks
unfolding forget_all
forget_all-Evolves [] now h = Evolves-refl drops h.tasks
forget_all-Evolves (id ∷ ids) now h =
    Evolves-trans h.tasks (forget_group id now h).0.tasks
      (forget_all ids now (forget_group id now h).0).tasks (forget_group-Evolves id now h)
      (forget_all-Evolves ids now (forget_group id now h).0)

pub stop_group_tasks :
    (id reason : String) (h : AgentHub) → (stop_group id reason h).0.tasks ≡ h.tasks
unfolding stop_group
stop_group_tasks id reason h = elim (Option-cases (lookup id h.groups)) [
  | inl away ↦ rw (away, stop_group) refl
  | inr (g, at) ↦ rw (at, stop_group) (stop_all_tasks reason (values g.tasks) _)
]
