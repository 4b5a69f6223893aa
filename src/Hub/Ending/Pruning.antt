-- ===== src/Hub/Ending/Pruning.antt =====
-- `prune` of src/looma/orchestrator/agents.py: the groups that ended long ago.
use looma.Hub.Ending.Forgetting.{
  forget_group-forgets, forget_group-NodupKeys, forget_group_unknown, forget_group_other,
}
use looma.Base.{
  ◌<◌, max, ◌⊎◌, ◌+◌, ltb→lt, ==-refl, if◌then◌else◌, Bool-cases, Option-cases, contains, string_eq,
  nat_eq, ℕ, String, ◌≡◌, refl, ap, ◌∙◌, inl, inr, Bool, true, false, Option, none, some, List, [],
  ◌∷◌, arith,
}
use looma.Base.Dict.{values, lookup, Dict, NodupKeys}
use looma.Hub.{AgentHub, TaskRecord, GroupRecord, finished}
use looma.Hub.Ending.{
  forget_group, forget_all, prune, stale_groups, is_stale, group_finished, all_over, is_over,
}

lookup-forget_all :
    (j : String) (ids : List String) (now : ℕ) (h : AgentHub)
    → NodupKeys h.tasks
    → NodupKeys h.groups
    → lookup j (forget_all ids now h).groups ≡ (if contains ids j then none else lookup j h.groups)
unfolding forget_all
lookup-forget_all j [] now h u v = refl
lookup-forget_all j (id ∷ ids) now h u v =
    let (u', v') = forget_group-NodupKeys id now h u v in
    let later = lookup-forget_all j ids now (forget_group id now h).0 u' v' in
    ground (arith, later, forget_group_other id now h j u v)

-- Tasks that belong to none of the groups that are forgotten.
abbrev Spares : Dict String GroupRecord → String → List String → Type 0
Spares groups j ids =
    (id : String) (g : GroupRecord)
    → contains ids id ≡ true
    → lookup id groups ≡ some g
    → contains (values g.tasks) j ≡ false

forget_all_keeps :
    (j : String) (ids : List String) (now : ℕ) (h : AgentHub)
    → NodupKeys h.tasks
    → NodupKeys h.groups
    → Spares h.groups j ids
    → lookup j (forget_all ids now h).tasks ≡ lookup j h.tasks
unfolding forget_all
forget_all_keeps j [] now h u v spares = refl
forget_all_keeps j (id ∷ ids) now h u v spares =
    let (u', v') = forget_group-NodupKeys id now h u v in
    forget_all_keeps j ids now (forget_group id now h).0 u' v' later ∙ first
  where
    later : Spares (forget_group id now h).0.groups j ids
    later k g listed at =
        spares k g (ground (arith, listed)) (ground (arith, at, forget_group_other id now h k u v))

    first : lookup j (forget_group id now h).0.tasks ≡ lookup j h.tasks
    first = elim (Option-cases (lookup id h.groups)) [
      | inl away ↦ ap (λ (x : AgentHub). lookup j x.tasks) (forget_group_unknown id now h away)
      | inr (g, at) ↦
          ground
            (arith, (forget_group-forgets id g now h j u v at).0, spares id g (ground arith) at)
    ]

all_over_at :
    (h : AgentHub) (ids : List String) (j : String)
    → all_over h ids ≡ true
    → contains ids j ≡ true
    → is_over (lookup j h.tasks) ≡ true
unfolding all_over
all_over_at h [] j over listed = cc
all_over_at h (id ∷ ids) j over listed = elim (string_eq.dec j id) [
  | yes same ↦ ground (arith, over, same)
  | no differ ↦ all_over_at h ids j (ground (arith, over)) (ground (arith, listed, differ))
]

all_over_from :
    (h : AgentHub) (ids : List String)
    → ((j : String) (t : TaskRecord)
        → contains ids j ≡ true
        → lookup j h.tasks ≡ some t
        → finished t ≡ true)
    → all_over h ids ≡ true
unfolding all_over
all_over_from h [] over = refl
all_over_from h (id ∷ ids) over =
    let rest = all_over_from h ids (λ j t listed at. over j t (ground (arith, listed)) at) in
    elim (Option-cases (lookup id h.tasks)) [
      | inl away ↦ ground (arith, away, rest)
      | inr (t, at) ↦ ground (arith, at, rest, over id t (ground (arith, ==-refl id)) at)
    ]

module _ (now older_than : ℕ) (h : AgentHub) where
  abbrev pub stale_at : Option GroupRecord → Bool
  stale_at none = false
  stale_at (some g) = is_stale h now older_than g

  contains-stale_groups :
      (id : String) (d : Dict String GroupRecord)
      → NodupKeys d
      → contains (stale_groups h now older_than d) id ≡ stale_at (lookup id d)
  unfolding stale_groups lookup
  contains-stale_groups id [] u = refl
  contains-stale_groups id ((k, g) ∷ d) u = elim (string_eq.dec id k) [
    | yes same ↦ ground (arith, same, u.0, contains-stale_groups id d u.1)
    | no differ ↦ ground (arith, differ, contains-stale_groups id d u.1)
  ]

  stale-Spares :
      (j : String) (t : TaskRecord)
      → NodupKeys h.groups
      → lookup j h.tasks ≡ some t
      → finished t ≡ false
      → Spares h.groups j (stale_groups h now older_than h.groups)
  unfolding is_stale group_finished
  stale-Spares j t v at unended id g listed there =
      elim (Bool-cases (contains (values g.tasks) j)) [
        | inr out ↦ out
        | inl held ↦
            let over : all_over h (values g.tasks) ≡ true =
              ground (arith, contains-stale_groups id h.groups v, listed, there) in
            absurd (ground (arith, all_over_at h (values g.tasks) j over held, at, unended))
      ]

  -- More than the limit, and at least a minute, has passed since the submission of the group; and no
  -- task of it in the table is unfinished.
  abbrev pub IsOld : GroupRecord → Type 0
  IsOld g =
      (g.submitted_at + max 60_000 older_than < now)
      × ((j : String) (t : TaskRecord)
          → contains (values g.tasks) j ≡ true
          → lookup j h.tasks ≡ some t
          → finished t ≡ true)

  is_stale-IsOld : (g : GroupRecord) → is_stale h now older_than g ≡ true → IsOld g
  unfolding is_stale group_finished
  is_stale-IsOld g e =
      let over : all_over h (values g.tasks) ≡ true = ground (arith, e) in
      (
        ltb→lt _ _ (ground (arith, e)),
        λ j t listed at. ground (arith, all_over_at h (values g.tasks) j over listed, at),
      )

  IsOld-is_stale : (g : GroupRecord) → is_stale h now older_than g ≡ false → ¬ (IsOld g)
  unfolding is_stale group_finished
  IsOld-is_stale g e (long, over) =
      let young = all_over_from h (values g.tasks) over in ground (arith, e, long, young)

  left_at :
      NodupKeys h.tasks
      → NodupKeys h.groups
      → (id : String)
      → lookup id (prune now older_than h).0.groups
        ≡ (if stale_at (lookup id h.groups) then none else lookup id h.groups)
  unfolding prune
  left_at u v id =
      lookup-forget_all id (stale_groups h now older_than h.groups) now h u v
      ∙ ap (λ b. if b then none else lookup id h.groups) (contains-stale_groups id h.groups v)

  -- A group goes exactly if enough time, and at least a minute, has passed since its submission and
  -- no task of it is unfinished, however recently the last one ended; and no task that is unfinished
  -- leaves the table.
  pub prune_lem :
      NodupKeys h.tasks
      → NodupKeys h.groups
      → ((id : String) (g : GroupRecord)
          → lookup id h.groups ≡ some g
          → (IsOld g × (lookup id (prune now older_than h).0.groups ≡ none))
            ⊎ ((¬ (IsOld g)) × (lookup id (prune now older_than h).0.groups ≡ some g)))
        × ((id : String)
            → lookup id h.groups ≡ none
            → lookup id (prune now older_than h).0.groups ≡ none)
        × ((j : String) (t : TaskRecord)
            → lookup j h.tasks ≡ some t
            → finished t ≡ false
            → lookup j (prune now older_than h).0.tasks ≡ some t)
  unfolding prune
  prune_lem u v =
      let stale = stale_groups h now older_than h.groups in
      (
        (λ id g at.
            let left = left_at u v id in
            elim (Bool-cases (is_stale h now older_than g)) [
              | inl old ↦ inl (is_stale-IsOld g old, ground (arith, left, at, old))
              | inr young ↦ inr (IsOld-is_stale g young, ground (arith, left, at, young))
            ]),
        (λ id away. let left = left_at u v id in ground (arith, left, away)),
        (λ j t at unended. forget_all_keeps j stale now h u v (stale-Spares j t v at unended) ∙ at),
      )
