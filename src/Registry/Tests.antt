-- ===== src/Registry/Tests.antt =====
-- Runs of the registry, and its theorems at concrete calls.
use native.Mathlib.Decide.{ℕ_discrete}
use looma.Base.Filter.{filter, count_if}
use looma.Base.Distinct.{Distinct}
use looma.Base.Dict.{lookup, erase, insert}
use looma.Base.{
  err, ◌==◌, contains, string_eq, nat_eq, All, ℕ, String, ◌≡◌, refl, ap, ◌≢◌, Bool, true, false,
  some, List, [], ◌∷◌, ◌++◌, arith,
}
use looma.Base.Int.{pos}
use looma.Registry.{
  range, discard, commit, take_some, take_devices, release_devices, claimed_only, taken, no_cards,
  new_registry, busy, already_here, snapshot, recount_devices, free_devices, forget, begin,
  TaskRegistry,
}
use looma.Registry.Submission.{
  act_release_devices, act_commit, act_forget, act_begin, act, Action, act_all,
}
use looma.Registry.Sharing.{act_all-exclusive}

abbrev calls : List Action
calls = act_begin true "a" (pos 2) ∷ act_begin true "b" (pos 1) ∷ act_commit "a" (0 ∷ 1 ∷ []) ∷ []

busy_node : TaskRegistry
unfolding act_all act new_registry begin take_devices take_some free_devices commit discard filter
    taken range insert lookup string_eq nat_eq ℕ_discrete
busy_node = act_all calls (new_registry (pos 4) "")

shown : (snapshot busy_node).running ≡ 2
unfolding busy_node snapshot busy claimed_only count_if ℕ_discrete
shown = refl

left : free_devices busy_node ≡ 3 ∷ []
unfolding busy_node ℕ_discrete
left = refl

too_many : begin true "c" (pos 2) busy_node ≡ err (no_cards 1 4)
unfolding busy_node ℕ_discrete
too_many = refl

twice : begin true "b" (pos 1) busy_node ≡ err already_here
unfolding busy_node ℕ_discrete
twice = refl

not_now : recount_devices (pos 8) busy_node ≡ err 2
unfolding busy_node recount_devices busy claimed_only count_if ℕ_discrete
not_now = refl

-- `release` takes a running task out of the table before it waits for the process. An id that is
-- submitted again in between is accepted; the cards of the process that still runs count as free,
-- and the end of the first `release` frees those of the new task.
abbrev again : List Action
again =
    act_forget "a"
    ∷ act_begin true "a" (pos 1)
    ∷ act_commit "a" (3 ∷ [])
    ∷ act_release_devices "a"
    ∷ []

released_under_the_task :
    let s = act_all again busy_node in
    (free_devices s ≡ 0 ∷ 1 ∷ 3 ∷ [])
    × (lookup "a" s.tasks ≡ some (record { finished = false; devices = 3 ∷ [] }))
unfolding busy_node forget erase release_devices ℕ_discrete
released_under_the_task = (refl, refl)

abbrev of_a : List ℕ
of_a = 0 ∷ 1 ∷ []

abbrev of_b : List ℕ
of_b = 2 ∷ []

abbrev of_c : List ℕ
of_c = 3 ∷ []

abbrev name_is_a : String → Bool
name_is_a s = s == "a"

abbrev names : String × String
names = ("b", "a")

b_not_a : names.0 ≢ names.1
unfolding string_eq
b_not_a e = let same : false ≡ true = ap name_is_a e in absurd (ground (arith, same))

act_all-exclusive_example : Distinct of_b × All (λ x. contains of_a x ≡ false) of_b
unfolding busy_node ℕ_discrete
act_all-exclusive_example = act_all-exclusive calls (pos 4) "" "b" "a" of_b of_a b_not_a refl refl

with_c : TaskRegistry
unfolding busy_node ℕ_discrete
with_c = record busy_node {
  held = insert "c" of_c busy_node.held;
  claimed = busy_node.claimed ++ ("c" ∷ []);
}
