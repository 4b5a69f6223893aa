-- ===== src/Hub/Tests.antt =====
-- Runs of the hub, src/looma/orchestrator/agents.py, and the theorems at concrete inputs.
use looma.Base.Filter.{filter}
use looma.Base.Sort.{sort_by}
use looma.Base.{
  ◌⊎◌, Result, ok, err, contains, string_eq, nat_eq, length, ℕ, ◌<◌, String, ◌≡◌, refl, ap, ◌∙◌,
  Bool, true, false, Option, none, some, List, [], ◌∷◌,
}
use looma.Base.Dict.{lookup-nil, values, NodupKeys, erase, lookup, insert}
use looma.Placement.{subtract, plus, holds, free_of, choose_node, Resources}
use looma.Hub.{
  bad_message, one, AgentError, AgentHub, AgentSession, AgentNode, TaskRecord, GroupRecord,
  Hardware, new_hub, new_task, finished,
}
use looma.Hub.Gateway.{Register, node_from, admitted}
use looma.Hub.Gateway.Streams.{
  unless_ended, last_open, serial_of, handle_all-newest, opens, ends, Event, handle_all,
}
use looma.Hub.Placing.{choose_for_group, placement_nodes_with, promised_gpus, reserved}
use looma.Hub.Placing.Capacity.{choose_for_group-HasRoom, count}
use looma.Hub.Placing.Views.{Room}
use looma.Hub.Placing.Held.{sum_held}
use looma.Hub.Tasks.{Job, send_all}
use looma.Hub.Reports.{Telemetry, on_telemetry, lose}
use looma.Hub.Reports.Agreement.{IsSpared, on_telemetry-Agrees, Agrees, map_task}
use looma.Hub.Ending.{forget_group, prune}
use looma.Hub.Ending.Pruning.{prune_lem, IsOld}
use looma.Hub.Storing.{missing, flush}
use looma.Hub.Storing.Restart.{restore-flush, restarted, TasksNamed, GroupsNamed}
use looma.Hub.Life.{Op, Lives, run_all, submits, telemeters, prunes}
use looma.Hub.Life.Refines.{run_all-Lives}
use looma.Base.Texts.{join, show}
use looma.Base.Sort.{sort_by}
use looma.Base.Filter.{filter}
use looma.Base.Dict.{NodupKeys, lookup-nil, values}
use looma.Hub.{AgentError, send}
use looma.Hub.Grouping.{group_record, start_members, ranks_from, members_from}
use looma.Hub.Grouping.Whole.{IsWhole}
use looma.Hub.Gateway.Streams.{serial_of}
use looma.Placement.{choose_node, free_of, holds, plus, subtract}
use looma.Hub.Grouping.{submit_group, member_id}
use looma.Hub.Grouping.Whole.{IsWhole}

abbrev cards : Hardware
cards = record { num_gpus = 4; vram_free_bytes = 100; host_ram_bytes = 200 }

abbrev greeting : Register
greeting = record {
  node_id = "n1";
  region = "eu";
  agent_version = "1";
  join_key = "k";
  hardware = cards;
  accepts_tasks = true;
  refusal = "";
  environment_kinds = [];
  peer_id = "p1";
}

abbrev session : AgentSession
session = record { serial = 7; node = node_from greeting 0; outbox = [] }

abbrev wanted : Resources
wanted = record { vram_bytes = 10; ram_bytes = 20; cpus = 1000; gpus = 1; disk_bytes = 0 }

abbrev one_node : AgentHub
one_node = record new_hub { sessions = ("n1", session) ∷ [] }

-- Two members with a card each fit on a node with four cards, which has to have three.
two_members : choose_for_group one_node 2 wanted [] ≡ ok ("n1" ∷ "n1" ∷ [])
unfolding choose_for_group node_from string_eq sort_by filter choose_node free_of holds plus
    subtract lookup insert placement_nodes_with reserved promised_gpus
two_members = refl

abbrev two_cards : AgentHub
two_cards = record new_hub {
  sessions = ("n1", record session { node = record (node_from greeting 0) { gpus_free = 2 } }) ∷ [];
}

is_refused : Result AgentError (List String) → Bool
is_refused (ok ids) = false
is_refused (err e) = true

-- On a node with two cards they do not, though each takes one.
two_members_refused : is_refused (choose_for_group two_cards 2 wanted []) ≡ true
unfolding is_refused choose_for_group node_from string_eq sort_by filter choose_node free_of holds
    plus subtract lookup insert placement_nodes_with reserved promised_gpus
two_members_refused = refl

one_session : NodupKeys one_node.sessions
one_session = (lookup-nil "n1", tt)

abbrev twice : List String
twice = "n1" ∷ "n1" ∷ []

choose_for_group-HasRoom_example :
    (length twice ≡ 2)
    × ((j : String)
        → 0 < count j twice
        → (s : AgentSession) × (lookup j one_node.sessions ≡ some s)
          × (s.node.accepts_tasks ≡ true)
          × Room s.node
              (sum_held j (values one_node.tasks)).gpus
              (sum_held j (values one_node.tasks))
              wanted
              (count j twice))
choose_for_group-HasRoom_example =
    choose_for_group-HasRoom one_node 2 wanted twice one_session two_members

abbrev job : Job
job = record {
  command = "run" ∷ [];
  env = [];
  timeout_s = 60;
  serve_port = 0;
  resources = wanted;
  environment = [];
  inputs = ("a.txt", 1 ∷ 2 ∷ 3 ∷ []) ∷ [];
}

abbrev hash : List ℕ → String
hash bytes = "digest"

abbrev submitted : AgentHub × Result AgentError GroupRecord
submitted = submit_group hash job 2 [] none "m" "1" 5 one_node

-- A description of an environment with a key that is none: the group is refused and stays.
abbrev odd_job : Job
odd_job = record job { environment = ("image", one "python") ∷ [] }

half_placed :
    let r = submit_group hash odd_job 2 [] none "m" "1" 5 one_node in
    (r.1 ≡ err bad_message) × (length r.0.groups ≡ 1) × (length r.0.tasks ≡ 1)
unfolding submit_group choose_for_group choose_node sort_by filter placement_nodes_with node_from
    holds lookup reserved free_of promised_gpus string_eq insert subtract plus
half_placed = (refl, refl, refl)

head_task :
    lookup "group-1-r1" (submit_group hash job 2 [] none "m" "1" 5 one_node).0.tasks
    ≡ some (record (new_task "group-1-r1" "n1" ("run" ∷ []) 5) {
      resources = some wanted;
      group_id = "group-1";
      rank = 1;
    })
unfolding lookup submit_group choose_for_group choose_node sort_by filter placement_nodes_with
    node_from holds reserved free_of promised_gpus insert string_eq subtract plus member_id join
    show group_record start_members send_all send ranks_from members_from nat_eq
head_task = refl

-- A second stream replaces the first, whose late end does not part the node.
abbrev overlapping : List Event
overlapping = opens admitted greeting 1 0 ∷ opens admitted greeting 2 5 ∷ ends "n1" 1 ∷ []

abbrev bucket : String → ℕ
bucket id = 3

handle_all-newest_example :
    serial_of bucket none "" (lookup "n1" (handle_all bucket none "" overlapping new_hub).sessions)
    ≡ unless_ended bucket none "" "n1" (last_open bucket none "" "n1" overlapping)
handle_all-newest_example = handle_all-newest bucket none "" "n1" overlapping new_hub refl

-- An older stream that goes on does not get the node back.
abbrev replaced_goes_on : List Event
replaced_goes_on = opens admitted greeting 1 0 ∷ opens admitted greeting 2 5 ∷ ends "n1" 2 ∷ []

parted :
    let h = handle_all bucket none "" replaced_goes_on new_hub in
    (lookup "n1" h.sessions ≡ none) × (h.closing ≡ 1 ∷ [])
unfolding lookup handle_all looma.Hub.Gateway.detach looma.Hub.Gateway.attach insert string_eq erase
parted = (refl, refl)

abbrev task_a : TaskRecord
task_a = record (new_task "a" "n1" ("run" ∷ []) 0) { state = "running" }

abbrev task_b : TaskRecord
task_b = record (new_task "b" "n2" ("run" ∷ []) 0) { state = "done"; group_id = "g" }

abbrev group_b : GroupRecord
group_b = record {
  group_id = "g";
  label = "m";
  tasks = (0, "b") ∷ [];
  nodes = (0, "n2") ∷ [];
  submitted_at = 0;
}

abbrev two_tasks : AgentHub
two_tasks = record one_node {
  tasks = ("a", task_a) ∷ ("b", task_b) ∷ [];
  groups = ("g", group_b) ∷ [];
  dirty = true;
}

tasks_once : NodupKeys two_tasks.tasks
unfolding lookup string_eq
tasks_once = (refl, (refl, tt))

groups_once : NodupKeys two_tasks.groups
groups_once = (lookup-nil "g", tt)

abbrev silence : Telemetry
silence = record {
  node_id = "n1";
  gpus_total = 4;
  gpus_free = 4;
  tasks_running = 0;
  env_cache_bytes = 0;
  model_cache_bytes = 0;
  disk_free_bytes = 0;
  disk_total_bytes = 0;
  vram_free_bytes = 0;
  hardware = none;
  peer = record {
    peer_id = "";
    symmetric_nat = false;
    visible_addrs = "/ip4/8.8.8.8/tcp/1" ∷ [];
    in_network = true;
    direct = 0;
    relayed = 0;
    direct_share = 0;
    link_rtt = 0;
    relay_rtt = 0;
  };
  update = record { state = ""; version = ""; error = "" };
  tasks = [];
}

abbrev public_ip : String → Option Bool
public_ip s = some false

session_at : lookup "n1" two_tasks.sessions ≡ some session
unfolding lookup string_eq
session_at = refl

on_telemetry-Agrees_example :
    ((t : TaskRecord)
      → lookup "a" (on_telemetry public_ip silence 100_000 two_tasks).tasks ≡ some t
      → Agrees 100_000 "n1" [] t)
    × (contains {A = String} [] "a" ≡ false
        → lookup "a" (on_telemetry public_ip silence 100_000 two_tasks).tasks
          ≡ map_task (lose 100_000 "n1" []) (lookup "a" two_tasks.tasks))
    × ((t : TaskRecord)
        → contains {A = String} [] "a" ≡ false
        → lookup "a" two_tasks.tasks ≡ some t
        → IsSpared 100_000 "n1" t
        → lookup "a" (on_telemetry public_ip silence 100_000 two_tasks).tasks ≡ some t)
unfolding node_from
on_telemetry-Agrees_example =
    on_telemetry-Agrees public_ip silence 100_000 two_tasks session "a" session_at refl

-- The task that the node does not hold any more is gone, that of another node is not.
lost :
    lookup "a" (on_telemetry public_ip silence 100_000 two_tasks).tasks
    ≡ some (record task_a { state = "gone"; error = "узел больше не держит эту задачу" })
unfolding lookup string_eq on_telemetry node_from finished
lost = refl

abbrev b_id : String
b_id = "b"

group_at : lookup "g" two_tasks.groups ≡ some group_b
unfolding lookup string_eq
group_at = refl

prune_lem_example :
    ((id : String) (g : GroupRecord)
      → lookup id two_tasks.groups ≡ some g
      → (IsOld 100_000 5 two_tasks g × (lookup id (prune 100_000 5 two_tasks).0.groups ≡ none))
        ⊎ ((¬ (IsOld 100_000 5 two_tasks g))
            × (lookup id (prune 100_000 5 two_tasks).0.groups ≡ some g)))
    × ((id : String)
        → lookup id two_tasks.groups ≡ none
        → lookup id (prune 100_000 5 two_tasks).0.groups ≡ none)
    × ((j : String) (t : TaskRecord)
        → lookup j two_tasks.tasks ≡ some t
        → finished t ≡ false
        → lookup j (prune 100_000 5 two_tasks).0.tasks ≡ some t)
prune_lem_example = prune_lem 100_000 5 two_tasks tasks_once groups_once

-- The finished group is old enough, and its task goes with it.
pruned : lookup "b" (prune 100_000 5 two_tasks).0.tasks ≡ none
unfolding lookup string_eq prune looma.Hub.Ending.group_finished finished looma.Hub.Tasks.release
    erase
pruned = refl

tasks_named : TasksNamed two_tasks.tasks
tasks_named = (refl, (refl, tt))

groups_named : GroupsNamed two_tasks.groups
groups_named = ((refl, ((lookup-nil 0, tt), (lookup-nil 0, tt))), tt)

restore-flush_example :
    (restarted 9 (flush false two_tasks missing).1
      ≡ (record new_hub { tasks = two_tasks.tasks; groups = two_tasks.groups }, 2))
    × ((flush true two_tasks missing).1 ≡ missing)
    × ((flush false (flush true two_tasks missing).0 missing).1 ≡ missing)
restore-flush_example =
    restore-flush 9 two_tasks missing refl tasks_once tasks_named groups_once groups_named

abbrev ops : List (Op × ℕ)
ops = (submits job "n1" "7", 5) ∷ (telemeters silence, 200_000) ∷ (prunes 0, 300_000) ∷ []

new_id : lookup "task-7" two_tasks.tasks ≡ none
unfolding lookup string_eq
new_id = refl

joined : join "task-" "7" ≡ "task-7"
unfolding join
joined = refl

run_all-Lives_example :
    NodupKeys (run_all hash public_ip ops two_tasks).tasks
    × ((id : String)
        → Lives ops
            (lookup id two_tasks.tasks)
            (lookup id (run_all hash public_ip ops two_tasks).tasks))
run_all-Lives_example =
    run_all-Lives hash public_ip ops two_tasks
      (ap (λ id. lookup id two_tasks.tasks) joined ∙ new_id, (tt, (tt, tt))) tasks_once
