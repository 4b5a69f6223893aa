-- ===== src/Training/Tests.antt =====
-- Two jobs in either store.
use looma.Base.Dict.{lookup, insert}
use looma.Base.{string_eq, nat_eq, length, ℕ, ◌≤◌, ◌≡◌, refl, Option, none, some, List, [], ◌∷◌}
use looma.Training.{running, failed, stopped, done, State, TrainingJob}
use looma.Training.Memory
use looma.Training.Table
use looma.Training.Stores.{get-in_table, in_table, in_memory, call_remember, call_finish, Call}

abbrev calls : List (Call ℕ)
calls =
    call_remember "j1" "llama" 1 (some 4) 10
    ∷ call_remember "j2" "qwen" 2 none 20
    ∷ call_finish "j1" done (some 7) "" 30
    ∷ call_finish "j1" failed none "late" 40
    ∷ []

abbrev state_of : Option (TrainingJob ℕ) → State
state_of none = stopped
state_of (some job) = job.state

first_end_counts : state_of (Memory.get "j1" (in_memory calls [])) ≡ done
unfolding in_memory Memory.remember Memory.finish Memory.get insert lookup string_eq
first_end_counts = refl

-- An id that is used again starts anew in memory and keeps its end in the table.
abbrev twice : List (Call ℕ)
twice = call_finish "j1" done none "" 5 ∷ call_remember "j1" "again" 3 none 50 ∷ []

abbrev one : List (Call ℕ)
one = call_remember "j1" "llama" 1 (some 4) 10 ∷ []

runs_in_memory : state_of (Memory.get "j1" (in_memory twice (in_memory one []))) ≡ running
unfolding in_memory Memory.remember Memory.finish Memory.get insert lookup string_eq
runs_in_memory = refl

done_in_the_table : state_of (Table.get "j1" (in_table twice (in_table one []))) ≡ done
unfolding in_table Table.remember Table.finish Table.get Table.update_where lookup string_eq
done_in_the_table = refl

get-in_table_example :
    (Table.get "j1" (in_table calls []) ≡ Memory.get "j1" (in_memory calls []))
    × (length (Memory.list (some 4) (in_memory calls [])) ≤ Table.limit
        → Table.list (some 4) (in_table calls []) ≡ Memory.list (some 4) (in_memory calls []))
unfolding string_eq
get-in_table_example = get-in_table calls "j1" (some 4) (refl, (refl, tt))
