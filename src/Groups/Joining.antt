-- ===== src/Groups/Joining.antt =====
-- What joining a group shows, and that leaving it takes back exactly that.
use looma.Base.Dict.{
  erase-insert_new, insert-NodupKeys, lookup-erase, lookup-insert, erase, insert, NodupKeys,
  Entries, lookup, Dict,
}
use looma.Base.{
  if◌then◌else◌, ◌==◌, string_eq, nat_eq, is_nil, ℕ, String, ◌≡◌, refl, ap, ◌∙◌, ◌≢◌, ◌⊎◌, none,
  some, [], ◌∷◌, arith,
}
use looma.Groups.{local_task, of, leave, join, without_rank, held_in, GroupTable, Group}

-- What the table always is, as dictionaries of dictionaries.
abbrev pub IsValid : GroupTable → Type 0
IsValid s =
    NodupKeys s.by_task × NodupKeys s.local_rank × Entries (λ id held. NodupKeys held) s.local_rank

held-insert :
    (id other : String) (held : Dict ℕ String) (ranks : Dict String (Dict ℕ String))
    → held_in other (insert id held ranks) ≡ (if other == id then held else held_in other ranks)
held-insert id other held ranks = ground (arith, lookup-insert other id held ranks)

held-without_rank :
    (id other : String) (rank : ℕ) (ranks : Dict String (Dict ℕ String))
    → NodupKeys ranks
    → held_in other (without_rank id rank ranks)
      ≡ (if other == id then erase rank (held_in id ranks) else held_in other ranks)
held-without_rank id other rank ranks u = go (erase rank (held_in id ranks)) refl
  where
    go :
        (left : Dict ℕ String)
        → erase rank (held_in id ranks) ≡ left
        → held_in other (if is_nil left then erase id ranks else insert id left ranks)
          ≡ (if other == id then erase rank (held_in id ranks) else held_in other ranks)
    go [] e = ground (arith, e, lookup-erase other id ranks u)
    go (x ∷ xs) e = ground (arith, e, lookup-insert other id (x ∷ xs) ranks)

-- Joining a table in which neither the task nor its rank is known shows the task at its rank and
-- changes no other rank; leaving then takes back exactly that, for every task and every rank.
pub leave-join :
    (task : String) (group : Group) (s : GroupTable) (other_task other_group : String)
    (other_rank : ℕ)
    → IsValid s
    → of task s ≡ none
    → local_task group.group_id group.rank s ≡ none
    → let joined = join task group s in
      let left = leave task joined in
      (local_task group.group_id group.rank joined ≡ some task)
      × (of task joined ≡ some group)
      × (((other_group ≢ group.group_id) ⊎ (other_rank ≢ group.rank))
          → local_task other_group other_rank joined ≡ local_task other_group other_rank s)
      × (of other_task left ≡ of other_task s)
      × (local_task other_group other_rank left ≡ local_task other_group other_rank s)
unfolding join leave of local_task
leave-join task group s other_task other_group other_rank (tasks, ranks, inner) new unheld =
    let id = group.group_id in
    let held = held_in id s.local_rank in
    let more = insert group.rank task held in
    let ranks' = insert id more s.local_rank in
    let here = lookup-insert task task group s.by_task in
    let known : lookup task (insert task group s.by_task) ≡ some group = ground (arith, here) in
    let back =
      held-without_rank id other_group group.rank ranks'
        (insert-NodupKeys id more s.local_rank ranks) in
    let same = held-insert id other_group more s.local_rank in
    let own = held-insert id id more s.local_rank in
    let undone = erase-insert_new group.rank task held unheld in
    let tasks_undone = erase-insert_new task group s.by_task new in
    (
      ground (arith, own, lookup-insert group.rank group.rank task held),
      known,
      λ differ. ground (arith, differ, same, lookup-insert other_rank group.rank task held),
      rw (known, leave) (ap (lookup other_task) tasks_undone.0),
      rw (known, leave) (ap (lookup other_rank) (back ∙ ground (arith, same, own, undone))),
    )
