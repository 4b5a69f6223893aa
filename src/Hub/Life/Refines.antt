-- ===== src/Hub/Life/Refines.antt =====
-- Every operation of the hub, src/looma/orchestrator/agents.py, moves each task by steps of the
-- abstract machine.
use mathlib.Core.Path.{subst}
use looma.Base.{
  refl, ◌+◌, ◌≤◌, Bool-cases, Result-cases, string_eq, nat_eq, is_nil, ℕ, String, ◌≡◌, sym, ap, inl,
  inr, Bool, Option, none, some, List, [], ◌∷◌, arith,
}
use looma.Base.Texts.{join}
use looma.Base.Dict.{lookup, insert, Dict, NodupKeys, lookup-insert}
use looma.Hub.{GroupMember, run_task, AgentHub, TaskRecord}
use looma.Hub.Tasks.Outbox.{send_all-SameBut}
use looma.Hub.Grouping.{
  only_first, member_task, start_member, submit_group, start_members, RankJob, member_id,
}
use looma.Hub.Life.{
  telemeters, reports, prunes, forgets_group, stops_group, releases, stops, prune, run_all, run,
  Step, adds, asks, added, kind_of, Lives, here, next, Op, submits, submits_group,
}
use looma.Hub.Grouping.{given, members_from}
use looma.Hub.Grouping.Whole.{submit_group-cases, with_group}
use looma.Hub.Grouping.Starting.{start_member_tasks, member_id_cancel}
use looma.Hub.Tasks.{
  is_message, placed_task, Job, touch, target, start, submit, run_message, input_messages,
}
use looma.Hub.Ending.{stale_groups, prune}
use looma.Hub.Life.Changes.{Evolves, Evolves-refl, Evolves-trans, Evolves-to, Evolves-insert}
use looma.Hub.Life.Reported.{on_task_state-Evolves, on_telemetry-Evolves}
use looma.Hub.Life.Ended.{
  stop_tasks, release-Evolves, forget_group-Evolves, forget_all-Evolves, stop_group_tasks,
}

-- Names of new tasks that stand for nothing yet.
abbrev pub IsFresh : Op → AgentHub → Type 0
IsFresh (submits job node_id fresh) h = lookup (join "task-" fresh) h.tasks ≡ none
IsFresh (submits_group job size node_ids per_rank label fresh) h =
    (rank : ℕ) → lookup (member_id (join "group-" fresh) rank) h.tasks ≡ none
IsFresh _ h = Unit

start_tasks :
    (digest : List ℕ → String) (job : Job) (task_id : String) (now : ℕ) (id : String) (h : AgentHub)
    → (start digest job task_id now id h).0.tasks
      ≡ insert task_id (start digest job task_id now id h).1 h.tasks
unfolding start
start_tasks digest job task_id now id h =
    let t = (start digest job task_id now id h).1 in
    ap (λ (x : AgentHub). x.tasks)
      (send_all-SameBut id
        (run_task (run_message digest task_id none job) ∷ input_messages task_id job.inputs)
        (touch (record h { tasks = insert task_id t h.tasks })))

Evolves-insert_new :
    (id : String) (t : TaskRecord) (d : Dict String TaskRecord)
    → t.state ≡ "pending"
    → lookup id d ≡ none
    → Evolves adds d (insert id t d)
Evolves-insert_new id t d waiting new =
    Evolves-insert adds id t d (subst (λ o. Step adds o (some t)) (sym new) (added t waiting))

submit-Evolves :
    (digest : List ℕ → String) (job : Job) (node_id fresh : String) (now : ℕ) (h : AgentHub)
    → lookup (join "task-" fresh) h.tasks ≡ none
    → Evolves adds h.tasks (submit digest job node_id fresh now h).0.tasks
unfolding submit
submit-Evolves digest job node_id fresh now h new = elim (Bool-cases (is_nil job.command)) [
  | inl empty ↦ rw (empty, submit) (Evolves-refl adds h.tasks)
  | inr given ↦
      rw (given, submit)
        (elim (Result-cases (target h job.resources node_id)) [
          | inl (e, refused) ↦ rw (refused, submit) (Evolves-refl adds h.tasks)
          | inr (id, picked) ↦
              let task_id = join "task-" fresh in
              let t = (start digest job task_id now id h).1 in
              let more = Evolves-insert_new task_id t h.tasks refl new in
              elim (Bool-cases (is_message job)) [
                | inl built ↦
                    rw (picked, built, submit)
                      (Evolves-to h.tasks (start_tasks digest job task_id now id h) more)
                | inr raised ↦
                    rw (picked, raised, submit)
                      (Evolves-insert_new task_id (placed_task job task_id now id) h.tasks refl new)
              ]
        ])
]

start_members-Evolves :
    (digest : List ℕ → String) (job : Job) (gid : String) (now : ℕ) (members : List GroupMember)
    (pr : List RankJob) (rank : ℕ) (ids : List String) (h : AgentHub)
    → ((r : ℕ) → rank ≤ r → lookup (member_id gid r) h.tasks ≡ none)
    → Evolves adds h.tasks (start_members digest job gid now members pr rank ids h).tasks
unfolding start_members
start_members-Evolves digest job gid now members pr rank [] h new = Evolves-refl adds h.tasks
start_members-Evolves digest job gid now members pr rank (id ∷ ids) h new =
    Evolves-trans h.tasks h'.tasks
      (start_members digest job gid now members pr (rank + 1) ids h').tasks
      (Evolves-to h.tasks here_tasks (
        Evolves-insert_new (member_id gid rank) (member_task digest job gid now pr rank id) h.tasks
          refl (new rank (omega arith))))
      (start_members-Evolves digest job gid now members pr (rank + 1) ids h' later)
  where
    h' : AgentHub
    h' = start_member digest job gid now members pr rank id h

    here_tasks :
        h'.tasks ≡ insert (member_id gid rank) (member_task digest job gid now pr rank id) h.tasks
    here_tasks = start_member_tasks digest job gid now members pr rank id h

    later : (r : ℕ) → rank + 1 ≤ r → lookup (member_id gid r) h'.tasks ≡ none
    later r above = elim (string_eq.dec (member_id gid r) (member_id gid rank)) [
      | yes twin ↦ absurd (omega (arith, above, member_id_cancel gid r rank twin))
      | no differ ↦ ground (
        arith,
        here_tasks,
        differ,
        new r (omega (arith, above)),
        lookup-insert (member_id gid r) (member_id gid rank)
            (member_task digest job gid now pr rank id) h.tasks,
      )
    ]

only_first-Evolves :
    (digest : List ℕ → String) (job : Job) (gid : String) (now : ℕ) (pr : List RankJob)
    (ids : List String) (h : AgentHub)
    → lookup (member_id gid 0) h.tasks ≡ none
    → Evolves adds h.tasks (only_first digest job gid now pr ids h).tasks
only_first-Evolves digest job gid now pr [] h new = Evolves-refl adds h.tasks
only_first-Evolves digest job gid now pr (id ∷ ids) h new =
    Evolves-insert_new (member_id gid 0) (member_task digest job gid now pr 0 id) h.tasks refl new

submit_group-Evolves :
    (digest : List ℕ → String) (job : Job) (size : ℕ) (node_ids : List String)
    (per_rank : Option (List RankJob)) (label fresh : String) (now : ℕ) (h : AgentHub)
    → ((rank : ℕ) → lookup (member_id (join "group-" fresh) rank) h.tasks ≡ none)
    → Evolves adds h.tasks
        (submit_group digest job size node_ids per_rank label fresh now h).0.tasks
submit_group-Evolves digest job size node_ids per_rank label fresh now h new =
    elim (submit_group-cases digest job size node_ids per_rank label fresh now h) [
      | inl (e, refused) ↦ rw refused (Evolves-refl adds h.tasks)
      | inr (inl (chosen, picked, raised, left)) ↦ rw left (
          only_first-Evolves digest job (join "group-" fresh) now (given size per_rank) chosen
            (with_group digest job size node_ids per_rank label fresh now h chosen) (new 0))
      | inr (inr (chosen, picked, built, done)) ↦ rw done (
          start_members-Evolves digest job (join "group-" fresh) now (members_from h 0 chosen)
            (given size per_rank) 0 chosen
            (with_group digest job size node_ids per_rank label fresh now h chosen) (λ r _. new r))
    ]

module _ (digest : List ℕ → String) (is_local : String → Option Bool) where
  run-Evolves :
      (op : Op) (now : ℕ) (h : AgentHub)
      → IsFresh op h
      → Evolves (kind_of op) h.tasks (run digest is_local op now h).tasks
  unfolding run prune
  run-Evolves (submits job node_id fresh) now h new =
      submit-Evolves digest job node_id fresh now h new
  run-Evolves (submits_group job size node_ids per_rank label fresh) now h new =
      submit_group-Evolves digest job size node_ids per_rank label fresh now h new
  run-Evolves (stops id) now h new =
      Evolves-to h.tasks (stop_tasks id "cancelled" h) (Evolves-refl asks h.tasks)
  run-Evolves (releases id) now h new = release-Evolves id now h
  run-Evolves (stops_group id) now h new =
      Evolves-to h.tasks (stop_group_tasks id "cancelled" h) (Evolves-refl asks h.tasks)
  run-Evolves (forgets_group id) now h new = forget_group-Evolves id now h
  run-Evolves (prunes older_than) now h new =
      forget_all-Evolves (stale_groups h now older_than h.groups) now h
  run-Evolves (reports s) now h new = on_task_state-Evolves s "" now h
  run-Evolves (telemeters r) now h new = on_telemetry-Evolves is_local r now h

  -- New ids stand for nothing when they are used.
  abbrev pub AreFresh : List (Op × ℕ) → AgentHub → Type 0
  AreFresh [] h = Unit
  AreFresh ((op, now) ∷ ops) h = IsFresh op h × AreFresh ops (run digest is_local op now h)

  -- Whatever callers and nodes ask of the hub, in any order, each task goes by the steps of the
  -- abstract machine, one for each operation. Submitting changes no record that stands, and what it
  -- adds is pending; stopping asks the nodes and leaves every record as it is; releasing, forgetting and pruning change no record and only take
  -- away; a report and telemetry take nothing away, and leave a task its id, its node, its command,
  -- its resources, its group, its rank and its time of submission. No id stands twice in the table.
  -- New ids stand for nothing when they are used.
  pub run_all-Lives :
      (ops : List (Op × ℕ)) (h : AgentHub)
      → AreFresh ops h
      → NodupKeys h.tasks
      → NodupKeys (run_all digest is_local ops h).tasks
        × ((id : String)
            → Lives ops (lookup id h.tasks) (lookup id (run_all digest is_local ops h).tasks))
  unfolding run_all
  run_all-Lives [] h fresh u = (u, λ id. here (lookup id h.tasks))
  run_all-Lives ((op, now) ∷ ops) h (new, fresh) u =
      let (v, first) = run-Evolves op now h new u in
      let (w, on) = run_all-Lives ops (run digest is_local op now h) fresh v in
      (w, λ id. next op now (lookup id h.tasks) (first id) (on id))
