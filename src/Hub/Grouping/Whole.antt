-- ===== src/Hub/Grouping/Whole.antt =====
-- `submit_group` of src/looma/orchestrator/agents.py places a whole group, or nothing of it.
use looma.Base.Int.{pos}
use looma.Base.{
  zero, none, true, false, none, Result, Result-cases, ltb, Bool-cases, ok, err, string_eq, nat_eq,
  length, ℕ, suc, String, ◌≡◌, ◌⊎◌, inl, inr, Option, some, List, [], ◌∷◌, arith,
}
use looma.Base.Texts.{show, show, join}
use looma.Base.Dict.{lookup, insert}
use looma.Hub.{
  bad_message, TaskRecord, bad_message, TaskRecord, wrong_description, no_members, AgentHub,
  AgentError, GroupRecord,
}
use looma.Base.Int.{pos}
use looma.Hub.Placing.{choose_for_group}
use looma.Hub.Tasks.{is_message, Job, touch}
use looma.Hub.Tasks.Outbox.{outbox, and_then}
use looma.Hub.Grouping.{
  only_first, or_command, mine, mine, or_command, only_first, is_message, RankJob, members_from,
  group_record, start_members, is_described, given, submit_group,
}
use looma.Hub.Grouping.Starting.{messages_for}

abbrev pub nth : ℕ → List String → Option String
nth zero [] = none
nth (suc r) [] = none
nth zero (x ∷ xs) = some x
nth (suc r) (x ∷ xs) = nth r xs

module _ (digest : List ℕ → String) (job : Job) (size : ℕ) (node_ids : List String)
    (per_rank : Option (List RankJob)) (label fresh : String) (now : ℕ) (h : AgentHub) where
  abbrev pub group_id : String
  group_id = join "group-" fresh

  abbrev pub placed_group : List String → GroupRecord
  placed_group chosen = group_record group_id label now chosen

  abbrev pub with_group : List String → AgentHub
  with_group chosen = record h { groups = insert group_id (placed_group chosen) h.groups }

  abbrev pub placed_hub : List String → AgentHub
  placed_hub chosen = touch (
      start_members digest job group_id now (members_from h 0 chosen) (given size per_rank) 0 chosen
        (with_group chosen))

  -- What a group leaves whose first message cannot be built.
  abbrev pub abandoned : List String → AgentHub
  abandoned chosen =
      only_first digest job group_id now (given size per_rank) chosen (with_group chosen)

  abbrev pub result : AgentHub × Result AgentError GroupRecord
  result = submit_group digest job size node_ids per_rank label fresh now h

  pub submit_group-cases :
      ((e : AgentError) × (result ≡ (h, err e)))
      ⊎ ((chosen : List String) × (choose_for_group h size job.resources node_ids ≡ ok chosen)
          × (is_message job ≡ false)
          × (result ≡ (abandoned chosen, err bad_message)))
      ⊎ ((chosen : List String) × (choose_for_group h size job.resources node_ids ≡ ok chosen)
          × (is_message job ≡ true)
          × (result ≡ (placed_hub chosen, ok (placed_group chosen))))
  unfolding submit_group
  submit_group-cases = elim (Bool-cases (ltb size 1)) [
    | inl small ↦ inl (no_members, ground (arith, small))
    | inr large ↦ elim (Bool-cases (is_described size per_rank)) [
      | inr wrong ↦
          inl (wrong_description size (length (given size per_rank)), ground (arith, large, wrong))
      | inl right ↦ elim (Result-cases (choose_for_group h size job.resources node_ids)) [
        | inl (e, refused) ↦ inl (e, ground (arith, large, right, refused))
        | inr (chosen, picked) ↦ elim (Bool-cases (is_message job)) [
          | inl built ↦
              inr (inr (chosen, picked, built, ground (arith, large, right, picked, built)))
          | inr raised ↦
              inr (inl (chosen, picked, raised, ground (arith, large, right, picked, raised)))
        ]
      ]
    ]
  ]

  -- The task of a member as it stands before its node has reported: pending, on its node, with the
  -- command of its rank, or the shared one, and all the resources that were asked for.
  abbrev pub pending_task : ℕ → String → TaskRecord
  pending_task rank at = record {
    task_id = join (join group_id "-r") (show rank);
    node_id = at;
    command = or_command (mine (given size per_rank) rank).command job.command;
    state = "pending";
    error = "";
    exit_code = pos 0;
    devices = [];
    seconds = 0;
    results = [];
    submitted_at = now;
    resources = some job.resources;
    group_id = group_id;
    rank = rank;
    adopted = false;
  }

  -- The group is in the table with one rank for each chosen node; each rank has its pending task on
  -- its node; and the queue of every node has grown by what its ranks are told.
  abbrev pub IsWhole : AgentHub → GroupRecord → List String → Type 0
  IsWhole h' g chosen =
      (g.group_id ≡ group_id)
      × (lookup group_id h'.groups ≡ some g)
      × (length chosen ≡ size)
      × ((r : ℕ) → lookup r g.nodes ≡ nth r chosen)
      × ((r : ℕ) (at : String)
          → nth r chosen ≡ some at
          → lookup (join (join group_id "-r") (show r)) h'.tasks ≡ some (pending_task r at))
      × ((j : String)
          → outbox j h'
            ≡ and_then
                (messages_for digest job group_id now (members_from h 0 chosen)
                  (given size per_rank) j 0 chosen)
                (outbox j h))
