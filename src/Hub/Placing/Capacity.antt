-- ===== src/Hub/Placing/Capacity.antt =====
-- What `_choose_for_group` of src/looma/orchestrator/agents.py promises of the nodes it picks.
use looma.Base.{
  false, true, err, Result, err, Result-cases, is_nil, Result, ◌∙◌, Bool-cases, Bool, both_return,
  or_zero, if◌then◌else◌, ok, ◌==◌, string_eq, nat_eq, length, ℕ, zero, suc, ◌+◌, ◌<◌, String, ◌≡◌,
  refl, sym, ap, ◌≢◌, ◌⊎◌, inl, inr, true, some, List, [], ◌∷◌, arith,
}
use looma.Base.Dict.{values, lookup, Dict, NodupKeys}
use looma.Placement.{Resources, plus, choose_node, placed, refused, free_of, Verdict}
use looma.Placement.Choice.{choose_node-fits, FitsBeside}
use looma.Hub.{AgentHub, Reason, AgentSession}
use looma.Hub.Placing.{
  check_named, promised_gpus, choose_for_task, choose_for_group, placement_nodes_with,
  choose_members, promise, reserve, or_nothing, reserved,
}
use mathlib.Core.Path.{subst, subst₂}
use looma.Hub.Placing.Held.{
  reserved-promised_gpus, sum_held, plus_empty, lookup-promise, lookup-reserve,
}
use looma.Hub.Placing.Views.{
  Room, Room-step, Room-one, taken_of-or_nothing, placement_nodes-NodupKeys, lookup-placement_nodes,
}

abbrev pub count : String → List String → ℕ
count j [] = 0
count j (id ∷ ids) = (if j == id then 1 else 0) + count j ids

-- A node that takes tasks and has room for `n` of them.
abbrev pub HasRoom :
    Dict String AgentSession
    → Dict String ℕ
    → Dict String Resources
    → Resources
    → String
    → ℕ
    → Type 0
HasRoom sessions promised reserved wanted j n =
    (session : AgentSession) × (lookup j sessions ≡ some session)
    × (session.node.accepts_tasks ≡ true)
    × Room session.node (or_zero (lookup j promised)) (or_nothing (lookup j reserved)) wanted n

pub chosen-HasRoom :
    (sessions : Dict String AgentSession) (promised : Dict String ℕ)
    (reserved : Dict String Resources) (wanted : Resources) (id : String)
    → NodupKeys sessions
    → choose_node (placement_nodes_with promised sessions) wanted reserved ≡ placed id
    → HasRoom sessions promised reserved wanted id 1
chosen-HasRoom sessions promised reserved wanted id u e =
    let (info, at, room, _) =
      choose_node-fits reserved (placement_nodes_with promised sessions) wanted id
        (placement_nodes-NodupKeys promised sessions u) e in
    let (session, held, takes, seen) = lookup-placement_nodes promised id sessions info u at in
    let taken = taken_of-or_nothing (lookup id reserved) in
    (
      session,
      held,
      takes,
      Room-one session.node (or_zero (lookup id promised)) (or_nothing (lookup id reserved)) wanted
          (subst₂ (λ i t. FitsBeside (free_of i) t wanted) seen taken room),
    )

past_err :
    {E A : Type 0} (b : Bool) (e : E) (m : Result E A) {a : A}
    → (if b then err e else m) ≡ ok a
    → m ≡ ok a
past_err true e m raised = cc
past_err false e m returns = returns

Verdict-cases :
    (v : Verdict) → ((why : Reason) × (v ≡ refused why)) ⊎ ((id : String) × (v ≡ placed id))
Verdict-cases (refused why) = inl (why, refl)
Verdict-cases (placed id) = inr (id, refl)

module _ (sessions : Dict String AgentSession) (wanted : Resources) where
  HasRoom-more :
      (promised : Dict String ℕ) (kept : Dict String Resources) (id : String) (n : ℕ)
      → HasRoom sessions (promise id wanted.gpus promised) (reserve id wanted kept) wanted id n
      → HasRoom sessions promised kept wanted id (n + 1)
  HasRoom-more promised kept id n (session, at, takes, room) =
      let p = lookup-promise id id wanted.gpus promised in
      let r = lookup-reserve id id wanted kept in
      let p' : or_zero (lookup id (promise id wanted.gpus promised))
          ≡ or_zero (lookup id promised) + wanted.gpus =
        ground (arith, p) in
      let r' : or_nothing (lookup id (reserve id wanted kept))
          ≡ plus (or_nothing (lookup id kept)) wanted =
        ground (arith, r) in
      (
        session,
        at,
        takes,
        Room-step session.node (or_zero (lookup id promised)) (or_nothing (lookup id kept)) wanted n
            (subst₂ (λ x y. Room session.node x y wanted n) p' r' room),
      )

  HasRoom-other :
      (promised : Dict String ℕ) (kept : Dict String Resources) (j id : String) (n : ℕ)
      → j ≢ id
      → HasRoom sessions (promise id wanted.gpus promised) (reserve id wanted kept) wanted j n
      → HasRoom sessions promised kept wanted j n
  HasRoom-other promised kept j id n differ (session, at, takes, room) =
      let p = lookup-promise j id wanted.gpus promised in
      let r = lookup-reserve j id wanted kept in
      let p' : or_zero (lookup j (promise id wanted.gpus promised)) ≡ or_zero (lookup j promised) =
        ground (arith, p, differ) in
      let r' : or_nothing (lookup j (reserve id wanted kept)) ≡ or_nothing (lookup j kept) =
        ground (arith, r, differ, plus_empty (or_nothing (lookup j kept))) in
      (session, at, takes, subst₂ (λ x y. Room session.node x y wanted n) p' r' room)

  HasRoom-cons :
      (promised : Dict String ℕ) (kept : Dict String Resources) (j id : String) (n m : ℕ)
      → m ≡ (if j == id then 1 else 0) + n
      → HasRoom sessions promised kept wanted id 1
      → (0 < n
          → HasRoom sessions (promise id wanted.gpus promised) (reserve id wanted kept) wanted j n)
      → 0 < m
      → HasRoom sessions promised kept wanted j m
  HasRoom-cons promised kept j id n m e first later some_picked = elim (string_eq.dec j id) [
    | no differ ↦
        let same_count : n ≡ m = ground (arith, e, differ) in
        subst (HasRoom sessions promised kept wanted j) same_count (
          HasRoom-other promised kept j id n differ
            (later (ground (arith, some_picked, same_count))))
    | yes same ↦
        let more : m ≡ n + 1 = ground (arith, e, same) in
        subst₂ (HasRoom sessions promised kept wanted) (sym same) (sym more) (
          go n (
            subst
              (λ k.
                (0 < n
                  → HasRoom sessions (promise id wanted.gpus promised) (reserve id wanted kept)
                      wanted k n))
              same later))
  ]
    where
      go :
          (k : ℕ)
          → (0 < k
              → HasRoom sessions
                  (promise id wanted.gpus promised)
                  (reserve id wanted kept)
                  wanted
                  id
                  k)
          → HasRoom sessions promised kept wanted id (k + 1)
      go zero later' = first
      go (suc k) later' = HasRoom-more promised kept id (suc k) (later' (omega arith))

  choose_members-cons :
      (size rounds rank : ℕ) (promised : Dict String ℕ) (kept : Dict String Resources)
      (chosen : List String)
      → choose_members sessions size wanted (suc rounds) rank promised kept ≡ ok chosen
      → (id : String) × (rest : List String) × (choose_node
            (placement_nodes_with promised sessions)
            wanted
            kept
          ≡ placed id)
        × (choose_members sessions size wanted rounds
              (rank + 1)
              (promise id wanted.gpus promised)
              (reserve id wanted kept)
            ≡ ok rest)
        × (chosen ≡ id ∷ rest)
  unfolding choose_members
  choose_members-cons size rounds rank promised kept chosen =
      elim (Verdict-cases (choose_node (placement_nodes_with promised sessions) wanted kept)) [
        | inl (why, no_room) ↦ rw (no_room, choose_members) λ h. cc
        | inr (id, picked) ↦
            rw (picked, choose_members)
              λ h.
                let (rest, e, later) =
                  both_return (λ r. ok (id ∷ r))
                    (choose_members sessions size wanted rounds (rank + 1)
                      (promise id wanted.gpus promised) (reserve id wanted kept))
                    (past_err (id == "") _ _ h) in
                (id, rest, refl, later, ground (arith, e))
      ]

  choose_members-length :
      (size rounds rank : ℕ) (promised : Dict String ℕ) (kept : Dict String Resources)
      (chosen : List String)
      → choose_members sessions size wanted rounds rank promised kept ≡ ok chosen
      → length chosen ≡ rounds
  unfolding choose_members
  choose_members-length size zero rank promised kept chosen e = ground (arith, e)
  choose_members-length size (suc rounds) rank promised kept chosen e =
      let (id, rest, _, later, same) =
        choose_members-cons size rounds rank promised kept chosen e in
      ap length same
      ∙ ap suc (
          choose_members-length size rounds (rank + 1) (promise id wanted.gpus promised)
            (reserve id wanted kept) rest later)

  pub choose_members-HasRoom :
      NodupKeys sessions
      → (size rounds rank : ℕ) (promised : Dict String ℕ) (kept : Dict String Resources)
        (chosen : List String)
      → choose_members sessions size wanted rounds rank promised kept ≡ ok chosen
      → (length chosen ≡ rounds)
        × ((j : String)
            → 0 < count j chosen
            → HasRoom sessions promised kept wanted j (count j chosen))
  unfolding choose_members
  choose_members-HasRoom u size zero rank promised kept [] e =
      (refl, λ j picked. absurd (omega (arith, picked)))
  choose_members-HasRoom u size zero rank promised kept (id ∷ rest) e = cc
  choose_members-HasRoom u size (suc rounds) rank promised kept chosen e =
      let (id, rest, picked, later, same) =
        choose_members-cons size rounds rank promised kept chosen e in
      let (n, room) =
        choose_members-HasRoom u size rounds (rank + 1) (promise id wanted.gpus promised)
          (reserve id wanted kept) rest later in
      (
        ground (arith, n, same),
        λ j.
            HasRoom-cons promised kept j id (count j rest) (count j chosen) (ap (count j) same)
              (chosen-HasRoom sessions promised kept wanted id u picked) (room j),
      )

-- A group that is placed has as many nodes as members.
pub choose_for_group-length :
    (h : AgentHub) (size : ℕ) (wanted : Resources) (node_ids chosen : List String)
    → choose_for_group h size wanted node_ids ≡ ok chosen
    → length chosen ≡ size
unfolding choose_for_group
choose_for_group-length h size wanted node_ids chosen = elim (Bool-cases (is_nil node_ids)) [
  | inl free ↦
      rw (free, choose_for_group)
        λ e.
          choose_members-length h.sessions wanted size size 0 (promised_gpus h) (reserved h) chosen
            e
  | inr named ↦ elim (Result-cases (check_named h.sessions node_ids)) [
    | inl (why, bad) ↦ rw (named, bad, choose_for_group) λ e. cc
    | inr (_, good) ↦ rw (named, good, choose_for_group) λ e. ground (arith, e)
  ]
]

-- A group without named nodes gets one node for each member, or nothing. Each node that is picked is
-- connected and takes tasks, and what its unfinished tasks hold leaves room for all the members that
-- it gets: memory and processors for all of them together, and cards for twice what its tasks hold
-- and for twice the cards of each member but one.
pub choose_for_group-HasRoom :
    (h : AgentHub) (size : ℕ) (wanted : Resources) (chosen : List String)
    → NodupKeys h.sessions
    → choose_for_group h size wanted [] ≡ ok chosen
    → (length chosen ≡ size)
      × ((j : String)
          → 0 < count j chosen
          → (session : AgentSession) × (lookup j h.sessions ≡ some session)
            × (session.node.accepts_tasks ≡ true)
            × Room session.node
                (sum_held j (values h.tasks)).gpus
                (sum_held j (values h.tasks))
                wanted
                (count j chosen))
unfolding choose_for_group
choose_for_group-HasRoom h size wanted chosen u e =
    let (n, room) =
      choose_members-HasRoom h.sessions wanted u size size 0 (promised_gpus h) (reserved h) chosen
        e in
    (
      n,
      λ j picked.
          let (session, at, takes, beside) = room j picked in
          let (gpus, all) = reserved-promised_gpus j h in
          (
            session,
            at,
            takes,
            subst₂ (λ p t. Room session.node p t wanted (count j chosen)) gpus all beside,
          ),
    )

-- A task that no node is named for goes to one that takes tasks and has room for it: beside twice the
-- cards that its unfinished tasks hold, and beside their memory and processors.
pub choose_for_task-HasRoom :
    (h : AgentHub) (wanted : Resources) (id : String)
    → NodupKeys h.sessions
    → choose_for_task h wanted ≡ placed id
    → (session : AgentSession) × (lookup id h.sessions ≡ some session)
      × (session.node.accepts_tasks ≡ true)
      × Room session.node
          (sum_held id (values h.tasks)).gpus
          (sum_held id (values h.tasks))
          wanted
          1
unfolding choose_for_task
choose_for_task-HasRoom h wanted id u e =
    let (session, at, takes, beside) =
      chosen-HasRoom h.sessions (promised_gpus h) (reserved h) wanted id u e in
    let (gpus, all) = reserved-promised_gpus id h in
    (session, at, takes, subst₂ (λ p t. Room session.node p t wanted 1) gpus all beside)
