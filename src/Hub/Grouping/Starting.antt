-- ===== src/Hub/Grouping/Starting.antt =====
-- The second loop of `submit_group` of src/looma/orchestrator/agents.py: each member is told of the
-- others and started.
use looma.Base.{
  if◌then◌else◌, ◌==◌, string_eq, nat_eq, ℕ, ◌+◌, ◌≤◌, String, ◌≡◌, refl, sym, ap, ◌∙◌, ◌≢◌, some,
  List, [], ◌∷◌, ◌++◌, arith,
}
use looma.Base.Texts.{join, join-show_cancel}
use looma.Base.Dict.{lookup, insert, lookup-insert}
use looma.Hub.{AgentHub, GroupMember, TaskGroup, ServerMessage, run_task}
use looma.Hub.Tasks.{Job, run_message, input_messages}
use looma.Hub.Tasks.Outbox.{
  and_then-append, and_then_nothing, outbox, and_then, outbox-send_all, send_all-SameBut,
}
use looma.Hub.Grouping.{
  RankJob, mine, job_of, member_id, ranks_from, member_task, start_member, start_members,
}

pub member_id_cancel : (g : String) (m n : ℕ) → member_id g m ≡ member_id g n → m ≡ n
unfolding member_id
member_id_cancel g m n e = join-show_cancel (join g "-r") m n e

module _ (digest : List ℕ → String) (job : Job) (gid : String) (now : ℕ)
    (members : List GroupMember) (pr : List RankJob) where
  -- What one member's node is told.
  abbrev pub start_messages : ℕ → List ServerMessage
  start_messages rank =
      let group : TaskGroup = record { group_id = gid; rank = rank; members = members } in
      run_task (run_message digest (member_id gid rank) (some group) (job_of job (mine pr rank)))
      ∷ input_messages (member_id gid rank) job.inputs

  -- What a node is told in all, for the ranks from one on that are placed there.
  abbrev pub messages_for : String → ℕ → List String → List ServerMessage
  messages_for j rank [] = []
  messages_for j rank (id ∷ ids) =
      (if j == id then start_messages rank else []) ++ messages_for j (rank + 1) ids

  pub start_member_tasks :
      (rank : ℕ) (id : String) (h : AgentHub)
      → (start_member digest job gid now members pr rank id h).tasks
        ≡ insert (member_id gid rank) (member_task digest job gid now pr rank id) h.tasks
  unfolding start_member
  start_member_tasks rank id h =
      ap (λ (x : AgentHub). x.tasks)
        (send_all-SameBut id (start_messages rank) (record h {
          tasks = insert (member_id gid rank) (member_task digest job gid now pr rank id) h.tasks;
        }))

  start_member_groups :
      (rank : ℕ) (id : String) (h : AgentHub)
      → (start_member digest job gid now members pr rank id h).groups ≡ h.groups
  unfolding start_member
  start_member_groups rank id h =
      ap (λ (x : AgentHub). x.groups)
        (send_all-SameBut id (start_messages rank) (record h {
          tasks = insert (member_id gid rank) (member_task digest job gid now pr rank id) h.tasks;
        }))

  pub start_members_groups :
      (rank : ℕ) (ids : List String) (h : AgentHub)
      → (start_members digest job gid now members pr rank ids h).groups ≡ h.groups
  unfolding start_members
  start_members_groups rank [] h = refl
  start_members_groups rank (id ∷ ids) h =
      start_members_groups (rank + 1) ids (start_member digest job gid now members pr rank id h)
      ∙ start_member_groups rank id h

  -- The records of ranks before the first one started here are left alone.
  start_members_before :
      (j : String) (rank : ℕ) (ids : List String) (h : AgentHub)
      → ((r : ℕ) → rank ≤ r → j ≢ member_id gid r)
      → lookup j (start_members digest job gid now members pr rank ids h).tasks ≡ lookup j h.tasks
  unfolding start_members
  start_members_before j rank [] h apart = refl
  start_members_before j rank (id ∷ ids) h apart =
      start_members_before j (rank + 1) ids (start_member digest job gid now members pr rank id h)
        (λ r later. apart r (omega (arith, later)))
      ∙ ground (
        arith,
        start_member_tasks rank id h,
        apart rank (omega arith),
        lookup-insert j (member_id gid rank) (member_task digest job gid now pr rank id) h.tasks,
      )

  -- Every rank has its record, on its node.
  pub start_members_at :
      (r : ℕ) (at : String) (rank : ℕ) (ids : List String) (h : AgentHub)
      → lookup r (ranks_from (λ _ id. id) rank ids) ≡ some at
      → lookup (member_id gid r) (start_members digest job gid now members pr rank ids h).tasks
        ≡ some (member_task digest job gid now pr r at)
  unfolding start_members ranks_from lookup
  start_members_at r at rank [] h e = cc
  start_members_at r at rank (id ∷ ids) h e =
      let h' = start_member digest job gid now members pr rank id h in
      elim (nat_eq.dec r rank) [
        | no differ ↦ start_members_at r at (rank + 1) ids h' (ground (arith, e, differ))
        | yes same ↦
            start_members_before (member_id gid r) (rank + 1) ids h'
              (λ q later twin. absurd (omega (arith, later, same, member_id_cancel gid r q twin)))
            ∙ ground (
              arith,
              start_member_tasks rank id h,
              same,
              e,
              lookup-insert (member_id gid r) (member_id gid rank)
                  (member_task digest job gid now pr rank id) h.tasks,
            )
      ]

  outbox-start_member :
      (j : String) (rank : ℕ) (id : String) (h : AgentHub)
      → outbox j (start_member digest job gid now members pr rank id h)
        ≡ and_then (if j == id then start_messages rank else []) (outbox j h)
  unfolding start_member
  outbox-start_member j rank id h =
      let h' = record h {
        tasks = insert (member_id gid rank) (member_task digest job gid now pr rank id) h.tasks;
      } in
      ground (arith, outbox-send_all j id (start_messages rank) h', and_then_nothing (outbox j h))

  -- The queue of every node grows by what its members are told, in the order of the ranks.
  pub outbox-start_members :
      (j : String) (rank : ℕ) (ids : List String) (h : AgentHub)
      → outbox j (start_members digest job gid now members pr rank ids h)
        ≡ and_then (messages_for j rank ids) (outbox j h)
  unfolding start_members
  outbox-start_members j rank [] h = sym (and_then_nothing (outbox j h))
  outbox-start_members j rank (id ∷ ids) h =
      outbox-start_members j (rank + 1) ids (start_member digest job gid now members pr rank id h)
      ∙ ap (and_then (messages_for j (rank + 1) ids)) (outbox-start_member j rank id h)
      ∙ and_then-append (if j == id then start_messages rank else [])
          (messages_for j (rank + 1) ids) (outbox j h)
