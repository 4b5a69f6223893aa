-- ===== src/Hub/Ending/Forgetting.antt =====
-- What is left when groups are forgotten, src/looma/orchestrator/agents.py.
use mathlib.Core.Path.{subst}
use looma.Base.{
  if◌then◌else◌, Option-cases, Result-cases, ◌==◌, contains, string_eq, nat_eq, ℕ, String, ◌≡◌,
  refl, sym, ap, ◌∙◌, inl, inr, none, some, List, [], ◌∷◌, arith,
}
use looma.Base.Dict.{values, lookup, erase, NodupKeys, lookup-erase, erase-NodupKeys}
use looma.Hub.{AgentHub, GroupRecord, release_task}
use looma.Hub.Tasks.{locate, let_go, release}
use looma.Base.Texts.{join}
use mathlib.Core.Path.{subst}
use looma.Hub.Tasks.Outbox.{send-SameBut}
use looma.Hub.Ending.{drop_task, drop_all, forget_record, forget_group}

-- Whether the node can be told or not, the task leaves the table, and no group changes.
pub drop_task_lem :
    (id : String) (now : ℕ) (h : AgentHub)
    → ((drop_task id now h).tasks ≡ erase id h.tasks) × ((drop_task id now h).groups ≡ h.groups)
unfolding drop_task release let_go
drop_task_lem id now h = elim (Result-cases (locate id h)) [
  | inl (e, away) ↦ rw (away, release) (refl, refl)
  | inr ((t, session), at) ↦
      let told = send-SameBut t.node_id (release_task (join "rel-" id) id) h in
      rw (at, release) (ground (arith, told), ground (arith, told))
]

drop_all_groups :
    (ids : List String) (now : ℕ) (h : AgentHub) → (drop_all ids now h).groups ≡ h.groups
unfolding drop_all
drop_all_groups [] now h = refl
drop_all_groups (id ∷ ids) now h =
    drop_all_groups ids now (drop_task id now h) ∙ (drop_task_lem id now h).1

drop_task-NodupKeys :
    (id : String) (now : ℕ) (h : AgentHub)
    → NodupKeys h.tasks
    → NodupKeys (drop_task id now h).tasks
drop_task-NodupKeys id now h u =
    subst NodupKeys (sym (drop_task_lem id now h).0) (erase-NodupKeys id h.tasks u)

drop_all-NodupKeys :
    (ids : List String) (now : ℕ) (h : AgentHub)
    → NodupKeys h.tasks
    → NodupKeys (drop_all ids now h).tasks
unfolding drop_all
drop_all-NodupKeys [] now h u = u
drop_all-NodupKeys (id ∷ ids) now h u =
    drop_all-NodupKeys ids now (drop_task id now h) (drop_task-NodupKeys id now h u)

lookup-drop_all :
    (j : String) (ids : List String) (now : ℕ) (h : AgentHub)
    → NodupKeys h.tasks
    → lookup j (drop_all ids now h).tasks ≡ (if contains ids j then none else lookup j h.tasks)
unfolding drop_all
lookup-drop_all j [] now h u = refl
lookup-drop_all j (id ∷ ids) now h u =
    let later = lookup-drop_all j ids now (drop_task id now h) (drop_task-NodupKeys id now h u) in
    let first = ap (lookup j) (drop_task_lem id now h).0 in
    ground (arith, later, first, lookup-erase j id h.tasks u)

-- A group that is forgotten is gone with all its tasks, also those whose node is away, and nothing
-- else is.
pub forget_group-forgets :
    (id : String) (g : GroupRecord) (now : ℕ) (h : AgentHub) (j : String)
    → NodupKeys h.tasks
    → NodupKeys h.groups
    → lookup id h.groups ≡ some g
    → (lookup j (forget_group id now h).0.tasks
        ≡ (if contains (values g.tasks) j then none else lookup j h.tasks))
      × (lookup j (forget_group id now h).0.groups ≡ (if j == id then none else lookup j h.groups))
unfolding forget_group forget_record
forget_group-forgets id g now h j u v at =
    rw (at, forget_group)
      (
        lookup-drop_all j (values g.tasks) now h u,
        ap (λ d. lookup j (erase id d)) (drop_all_groups (values g.tasks) now h)
            ∙ lookup-erase j id h.groups v,
      )

pub forget_group-NodupKeys :
    (id : String) (now : ℕ) (h : AgentHub)
    → NodupKeys h.tasks
    → NodupKeys h.groups
    → NodupKeys (forget_group id now h).0.tasks × NodupKeys (forget_group id now h).0.groups
unfolding forget_group forget_record
forget_group-NodupKeys id now h u v = elim (Option-cases (lookup id h.groups)) [
  | inl away ↦ rw (away, forget_group) (u, v)
  | inr (g, at) ↦
      rw (at, forget_group)
        (
          drop_all-NodupKeys (values g.tasks) now h u,
          subst (λ d. NodupKeys (erase id d)) (sym (drop_all_groups (values g.tasks) now h))
              (erase-NodupKeys id h.groups v),
        )
]

pub forget_group_unknown :
    (id : String) (now : ℕ) (h : AgentHub)
    → lookup id h.groups ≡ none
    → (forget_group id now h).0 ≡ h
unfolding forget_group
forget_group_unknown id now h away = rw (away, forget_group) refl

pub forget_group_other :
    (id : String) (now : ℕ) (h : AgentHub) (j : String)
    → NodupKeys h.tasks
    → NodupKeys h.groups
    → lookup j (forget_group id now h).0.groups ≡ (if j == id then none else lookup j h.groups)
unfolding forget_group
forget_group_other id now h j u v = elim (Option-cases (lookup id h.groups)) [
  | inl away ↦
      rw (away, forget_group)
        (elim (string_eq.dec j id) [
          | yes same ↦ ground (arith, same, away)
          | no differ ↦ ground (arith, differ)
        ])
  | inr (g, at) ↦ (forget_group-forgets id g now h j u v at).1
]
