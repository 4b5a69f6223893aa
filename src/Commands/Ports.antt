-- ===== src/Commands/Ports.antt =====
-- Which ports of a node are open from outside, agent/looma_agent/control/tasks.py.
use looma.Base.{
  false, Result, if_either, Option-cases, is_nil, if◌then◌else◌, contains, string_eq, nat_eq, ℕ,
  String, ◌≡◌, inl, inr, true, not, ◌&&◌, List, [], ◌∷◌, arith,
}
use looma.Base.Dict.{erase-NodupKeys, lookup-erase, erase, NodupKeys, lookup, Dict}
use looma.Commands.{
  TaskRefused, forget_task, of, task_forward, own_host, mine, PortMap, note_ports, allow_inbound,
  TaskCommands, without, or_none_of,
}
use looma.Commands.Owning.{contains-without, Owned, IsOwned, open_all-IsOwned, note_ports-NodupKeys}

-- What the handlers keep true of the ports.
abbrev pub IsValid : TaskCommands → Type 0
IsValid c = NodupKeys c.task_ports × IsOwned c

outside-NodupKeys :
    (external : List ℕ) (host : String) (c : TaskCommands)
    → NodupKeys c.task_ports
    → NodupKeys (if is_nil external then c else allow_inbound external host c).task_ports
unfolding allow_inbound
outside-NodupKeys [] host c u = u
outside-NodupKeys (q ∷ qs) host c u = u

task_forward-IsValid :
    (task_id : String) (m : PortMap) (c : TaskCommands)
    → IsValid c
    → IsValid (task_forward task_id m c).0
unfolding task_forward allow_inbound
task_forward-IsValid task_id m c (u, owned) = elim (Option-cases (of task_id c.groups)) [
  | inl alone ↦ rw (alone, task_forward) (u, owned)
  | inr (group, member) ↦
      let (outside, all) = open_all-IsOwned task_id group m c owned in
      let noted = note_ports-NodupKeys task_id (mine group m) c u in
      let u' =
        outside-NodupKeys m.external (own_host group m) (note_ports task_id (mine group m) c)
          noted in
      rw (member, task_forward)
        (if_either (λ (r : TaskCommands × Result TaskRefused (Dict ℕ String)). IsValid r.0)
          (is_nil m.ports && is_nil m.external) (u, owned)
          (if_either (λ (r : TaskCommands × Result TaskRefused (Dict ℕ String)). IsValid r.0)
            (is_nil m.ports) (u', outside) (u', all)))
]

forget_task-IsValid :
    (task_id : String) (c : TaskCommands) → IsValid c → IsValid (forget_task task_id c)
unfolding forget_task
forget_task-IsValid task_id c (u, owned) = (erase-NodupKeys task_id c.task_ports u, left)
  where
    gone : List ℕ
    gone = or_none_of (lookup task_id c.task_ports)

    left :
        (p : ℕ)
        → contains (without gone c.allowed_ports) p ≡ true
        → Owned (erase task_id c.task_ports) p
    left p held =
        let split = contains-without p gone c.allowed_ports in
        let (t, ps, at, has) = owned p (ground (arith, held, split)) in
        let kept : contains gone p ≡ false = ground (arith, held, split) in
        elim (string_eq.dec t task_id) [
          | yes same ↦ absurd (ground (arith, same, at, has, kept))
          | no differ ↦
              (t, ps, ground (arith, differ, at, lookup-erase t task_id c.task_ports u), has)
        ]

-- What happens to the ports of a node: a task opens some, or is forgotten, each in one step.
pub data Event : Type 0 where
  forwards : (task_id : String) → PortMap → Event
  forgets : (task_id : String) → Event

unfoldable pub handle_all : List Event → TaskCommands → TaskCommands
handle_all [] c = c
handle_all (forwards task_id m ∷ es) c = handle_all es (task_forward task_id m c).0
handle_all (forgets task_id ∷ es) c = handle_all es (forget_task task_id c)

-- Whatever tasks ask for and whichever are forgotten, in any order and also where the answer is a
-- refusal, every port that is open from outside is one that a task asked for which is not forgotten, as
-- long as each request and each forgetting runs as one step, which the code itself does not ensure.
pub handle_all-IsOwned :
    (es : List Event) (c : TaskCommands) → IsValid c → IsValid (handle_all es c)
unfolding handle_all
handle_all-IsOwned [] c h = h
handle_all-IsOwned (forwards task_id m ∷ es) c h =
    handle_all-IsOwned es (task_forward task_id m c).0 (task_forward-IsValid task_id m c h)
handle_all-IsOwned (forgets task_id ∷ es) c h =
    handle_all-IsOwned es (forget_task task_id c) (forget_task-IsValid task_id c h)

-- A task that is forgotten shuts its ports and no other: also one that another task asked for as well.
pub forget_task-shuts :
    (task_id : String) (c : TaskCommands) (p : ℕ)
    → contains (forget_task task_id c).allowed_ports p
      ≡ contains c.allowed_ports p && not (contains (or_none_of (lookup task_id c.task_ports)) p)
unfolding forget_task
forget_task-shuts task_id c p =
    contains-without p (or_none_of (lookup task_id c.task_ports)) c.allowed_ports
