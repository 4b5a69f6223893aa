-- ===== src/Groups/Tests.antt =====
-- Two ranks of one job on one node.
use looma.Base.Dict.{lookup, insert, erase, Dict}
use native.Mathlib.Decide.{ℕ_discrete}
use looma.Base.{string_eq, nat_eq, ℕ, ◌≡◌, refl, ◌≢◌, ◌⊎◌, true, none, some, [], ◌∷◌}
use looma.Groups.{new_table, groups, Member, of, member, local_task, leave, join, GroupTable, Group}
use looma.Groups.Joining.{leave-join, IsValid}

abbrev peers : Dict ℕ Member
peers =
    (
      0,
      record {
        rank = 0;
        node_id = "n0";
        peer_id = "p0";
        addrs = [];
        reachable = true;
        relay_rtt = 900;
      },
    )
    ∷ []

abbrev job : ℕ → Group
job rank = record { group_id = "g"; rank = rank; members = peers }

one : GroupTable
unfolding join insert lookup string_eq nat_eq ℕ_discrete
one = join "t0" (job 0) new_table

two : GroupTable
unfolding one
two = join "t1" (job 1) one

second : local_task "g" 1 two ≡ some "t1"
unfolding two local_task
second = refl

neighbour : member "g" 0 two ≡ lookup 0 peers
unfolding two member
neighbour = refl

last_one_out : groups (leave "t0" (leave "t1" two)) ≡ []
unfolding two leave erase groups
last_one_out = refl

-- A task that joins at a rank that another one holds takes it over, and the other one's leaving
-- then takes it away.
taken_over : local_task "g" 0 (leave "t0" (join "t2" (job 0) one)) ≡ none
unfolding one leave erase local_task
taken_over = refl

one-IsValid : IsValid one
unfolding one
one-IsValid = ((refl, tt), (refl, tt), ((refl, tt), tt))

leave-join_example :
    (local_task "g" 1 two ≡ some "t1")
    × (of "t1" two ≡ some (job 1))
    × ((((job 0).group_id ≢ "g") ⊎ ((job 0).rank ≢ 1))
        → local_task "g" 0 two ≡ local_task "g" 0 one)
    × (of "t0" (leave "t1" two) ≡ of "t0" one)
    × (local_task "g" 0 (leave "t1" two) ≡ local_task "g" 0 one)
unfolding two of local_task
leave-join_example = leave-join "t1" (job 1) one "t0" "g" 0 one-IsValid refl refl
