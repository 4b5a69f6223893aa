-- ===== src/Commands/Tests.antt =====
-- Runs of the task commands, agent/looma_agent/control/tasks.py, and the theorems at inputs.
use native.Mathlib.Decide.{ℕ_discrete}
use looma.Base.{
  ok, string_eq, nat_eq, ℕ, String, ◌≡◌, refl, true, false, none, some, List, [], ◌∷◌, map,
}
use looma.Base.Int.{negsuc}
use looma.Base.Dict.{Dict, NodupKeys, lookup-nil, lookup}
use looma.Base.Filter.{filter}
use looma.Groups.{Group, GroupTable, Member, of}
use looma.Hub.Channels.{Channels, no_channels, TaskResponse, result_key}
use looma.Hub.Requests.{end_request}
use looma.Commands.{
  note_ports, allow_inbound, TaskCommands, PortMap, from_task, to_hub, to_peer, task_forward,
  forget_task,
}
use looma.Commands.Ports.{handle_all-IsOwned, IsValid, Event, forwards, forgets, handle_all}
use looma.Commands.Answering.{Stream, stream, answer_request, Reading}
use looma.Commands.Answering.Trip.{end_request-answer_request, answers_in, answer_of, is_for}

abbrev member : ℕ → String → Member
member rank peer = record {
  rank = rank;
  node_id = "n";
  peer_id = peer;
  addrs = [];
  reachable = false;
  relay_rtt = 0;
}

abbrev group : Group
group = record {
  group_id = "g";
  rank = 0;
  members = (0, member 0 "p0") ∷ (1, member 1 "p1") ∷ (2, member 2 "") ∷ [];
}

abbrev commands : TaskCommands
commands = record {
  groups = record { by_task = ("t", group) ∷ []; local_rank = ("g", (0, "t") ∷ []) ∷ [] };
  allowed_ports = [];
  inbound_host = [];
  task_ports = [];
  inputs = [];
}

abbrev layout : PortMap
layout = record {
  ports = (0, 10 ∷ 11 ∷ []) ∷ (1, 20 ∷ []) ∷ [];
  external = 12 ∷ [];
  hosts = (0, "127.0.0.2") ∷ [];
}

opened : (task_forward "t" layout commands).0.allowed_ports ≡ 10 ∷ 11 ∷ 12 ∷ []
unfolding task_forward of lookup string_eq nat_eq ℕ_discrete
opened = refl

shut : (forget_task "t" (task_forward "t" layout commands).0).allowed_ports ≡ []
unfolding forget_task filter task_forward of lookup string_eq nat_eq
    native.Mathlib.Decide.ℕ_discrete looma.Base.Dict.insert
shut = refl

-- The task is forgotten between the note of its ports and their opening: the port stays open.
abbrev forgotten_between : TaskCommands
forgotten_between =
    allow_inbound (10 ∷ []) "127.0.0.2" (forget_task "t" (note_ports "t" (10 ∷ []) commands))

raced :
    (forgotten_between.allowed_ports ≡ 10 ∷ []) × (lookup "t" forgotten_between.task_ports ≡ none)
unfolding allow_inbound forget_task note_ports filter lookup string_eq nat_eq
    native.Mathlib.Decide.ℕ_discrete looma.Base.Dict.insert looma.Base.Dict.erase
raced = (refl, refl)

abbrev events : List Event
events = forwards "t" layout ∷ forwards "u" layout ∷ forgets "t" ∷ []

none_open : IsValid commands
none_open = (tt, λ p h. cc)

handle_all-IsOwned_example : IsValid (handle_all events commands)
handle_all-IsOwned_example = handle_all-IsOwned events commands none_open

to_all :
    from_task (some (λ g r. true)) "t" (negsuc 0) (7 ∷ []) commands
    ≡ ok (to_peer "g" 0 1 (7 ∷ []) ∷ to_hub "g" 0 2 (7 ∷ []) ∷ [])
unfolding from_task of lookup string_eq looma.Groups.local_task nat_eq
    native.Mathlib.Decide.ℕ_discrete
to_all = refl

abbrev answer : Stream
answer =
    stream 200 (("Transfer-Encoding", "chunked") ∷ ("A", "b") ∷ []) ((1 ∷ []) ∷ (2 ∷ 3 ∷ []) ∷ [])
      none

abbrev asked : Channels
asked = record no_channels { serving = ("r", []) ∷ ("q", []) ∷ [] }

abbrev other : TaskResponse
other = record {
  command_id = "q";
  status = 404;
  headers = [];
  body = 5 ∷ [];
  error = "";
  last = true;
}

asked_at : lookup "r" asked.serving ≡ some []
unfolding lookup string_eq
asked_at = refl

mixed :
    filter (is_for "r") (other ∷ answer_request "r" true answer) ≡ answer_request "r" true answer
unfolding answer_request filter string_eq
mixed = refl

end_request-answer_request_example :
    (end_request "n" "r" (answers_in (other ∷ answer_request "r" true answer) asked)).1
    ≡ answer_of true answer
end_request-answer_request_example =
    end_request-answer_request "r" "n" true answer (other ∷ answer_request "r" true answer) asked tt
      asked_at mixed

whole_answer :
    answer_of true answer
    ≡ ok (record { status = 200; headers = ("A", "b") ∷ []; body = 1 ∷ 2 ∷ 3 ∷ [] })
unfolding filter looma.Base.Texts.after_prefix string_eq
whole_answer = refl

abbrev reading : Reading
reading = record { pieces = (1 ∷ []) ∷ (2 ∷ []) ∷ []; failure = none }

abbrev collecting : Channels
collecting = record no_channels { collecting = ("t/out", ([], none)) ∷ [] }

collecting_at : lookup (result_key "t" "out") collecting.collecting ≡ some ([], none)
unfolding lookup string_eq result_key looma.Base.Texts.join
collecting_at = refl
