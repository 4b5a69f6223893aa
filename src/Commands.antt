-- ===== src/Commands.antt =====
-- Task commands of the agent, agent/looma_agent/control/tasks.py: the ports that tasks open, and
-- the way of a message from rank to rank. A set of ports is a list; what was refused is an error.
pub mod Owning
pub mod Ports
pub mod Answering
mod Tests
use looma.Base.{
  false, eqb, if◌then◌else◌, is_some, Result, ok, err, ◌>>=◌, ◌==◌, contains, string_eq, nat_eq,
  is_nil, ℕ, String, Bool, not, ◌&&◌, ◌||◌, Option, none, some, List, [], ◌∷◌, ◌++◌,
}
use looma.Base.Int.{ℤ, pos, negsuc}
use looma.Base.Dict.{lookup, keys, insert, erase, Dict}
use looma.Base.Filter.{filter}
use looma.Groups.{Group, GroupTable, Member, of, local_task, size}
use looma.Transfer.{Item, closed}

pub record TaskCommands : Type 0 where
  pub groups : GroupTable
  pub allowed_ports : List ℕ
  pub inbound_host : Dict ℕ String
  pub task_ports : Dict String (List ℕ)
  pub inputs : Dict String (List Item)

-- `TaskRefused`, as the handlers of this file raise it.
pub data TaskRefused : Type 0 where
  no_group : (task_id : String) → TaskRefused
  no_rank : (rank size : ℕ) → TaskRefused
  no_ports : TaskRefused
  no_channel : (rank : ℕ) → TaskRefused

-- `set.update`
unfoldable pub union : List ℕ → List ℕ → List ℕ
union ports [] = ports
union ports (p ∷ ps) = let rest = union ports ps in if contains rest p then rest else p ∷ rest

-- `set.difference_update`
unfoldable pub without : List ℕ → List ℕ → List ℕ
without gone ports = filter (λ p. not (contains gone p)) ports

unfoldable pub host_all : String → List ℕ → Dict ℕ String → Dict ℕ String
host_all host [] hosts = hosts
host_all host (p ∷ ps) hosts = host_all host ps (insert p host hosts)

-- `_allow_inbound`, as one step; the code holds no lock here.
unfoldable pub allow_inbound : List ℕ → String → TaskCommands → TaskCommands
unfolding union host_all
allow_inbound ports host c = record c {
  allowed_ports = union c.allowed_ports ports;
  inbound_host = if host == "" then c.inbound_host else host_all host ports c.inbound_host;
}

-- What a task says of its ports.
pub record PortMap : Type 0 where
  pub ports : Dict ℕ (List ℕ)
  pub external : List ℕ
  pub hosts : Dict ℕ String

abbrev pub or_none_of : Option (List ℕ) → List ℕ
or_none_of none = []
or_none_of (some ps) = ps

abbrev pub or_local : Option String → String
or_local none = ""
or_local (some host) = host

-- The ports of the task's own rank, and those for the orchestrator.
abbrev pub mine : Group → PortMap → List ℕ
mine group m = or_none_of (lookup group.rank m.ports) ++ m.external

abbrev pub own_host : Group → PortMap → String
own_host group m = or_local (lookup group.rank m.hosts)

-- The ports are noted for the task, so that they go with it.
unfoldable pub note_ports : String → List ℕ → TaskCommands → TaskCommands
note_ports task_id ports c = if is_nil ports then c else record c {
  task_ports = insert task_id (or_none_of (lookup task_id c.task_ports) ++ ports) c.task_ports;
}

-- The other ranks that are not on this machine, by the name of their peers.
unfoldable pub remote_ranks :
    GroupTable → Group → Dict ℕ Member → Result TaskRefused (Dict ℕ String)
remote_ranks table group [] = ok []
remote_ranks table group ((rank, m) ∷ members) =
    let rest = remote_ranks table group members in
    if eqb rank group.rank || is_some (local_task group.group_id rank table)
    then rest
    else if m.peer_id == ""
    then err (no_channel rank)
    else rest >>= λ d. ok ((rank, m.peer_id) ∷ d)

-- `_task_forward`, up to the listeners that the forwarder opens for the remote ranks, as one step; the
-- code holds no lock here.
unfoldable pub task_forward :
    String → PortMap → TaskCommands → TaskCommands × Result TaskRefused (Dict ℕ String)
unfolding note_ports allow_inbound remote_ranks
task_forward task_id m c = elim (of task_id c.groups) [
  | none ↦ (c, err (no_group task_id))
  | some group ↦
      let host = own_host group m in
      let noted = note_ports task_id (mine group m) c in
      let outside = if is_nil m.external then noted else allow_inbound m.external host noted in
      if is_nil m.ports && is_nil m.external
      then (c, err no_ports)
      else if is_nil m.ports
      then (outside, ok [])
      else (
        allow_inbound (or_none_of (lookup group.rank m.ports)) host outside,
        remote_ranks c.groups group group.members,
      )
]

unfoldable pub erase_all : List ℕ → Dict ℕ String → Dict ℕ String
erase_all [] hosts = hosts
erase_all (p ∷ ps) hosts = erase_all ps (erase p hosts)

-- `forget_task`, without the connections that it closes, as one step; the code holds no lock here.
unfoldable pub forget_task : String → TaskCommands → TaskCommands
unfolding without erase_all
forget_task task_id c =
    let ports = or_none_of (lookup task_id c.task_ports) in
    record c {
      task_ports = erase task_id c.task_ports;
      allowed_ports = without ports c.allowed_ports;
      inbound_host = erase_all ports c.inbound_host;
    }

-- `input_chunk`: a chunk for a task that waits for none is dropped.
unfoldable pub input_chunk : String → Item → TaskCommands → TaskCommands
input_chunk task_id item c = elim (lookup task_id c.inputs) [
  | none ↦ c
  | some items ↦ record c { inputs = insert task_id (items ++ item ∷ []) c.inputs }
]

-- `_close_input`: what the thread that waits for the input finds in its queue.
unfoldable pub close_input : String → TaskCommands → TaskCommands × Option (List Item)
close_input task_id c = (
  record c { inputs = erase task_id c.inputs },
  elim (lookup task_id c.inputs) [ none ↦ none | some items ↦ some (items ++ closed ∷ []) ],
)

-- Where a message goes.
pub data Delivery : Type 0 where
  to_task : (task_id : String) → (payload : List ℕ) → (from_rank : ℕ) → Delivery
  to_peer to_hub : (group_id : String) → (from_rank to_rank : ℕ) → (payload : List ℕ) → Delivery

-- The links to other nodes, if there are any: whether `send` of them can hand a message for a rank of a
-- group over directly now. If no direct way is open, or it raises, `send` relays the message.
abbrev pub Links : Type 0
Links = Option (String → ℕ → Bool)

abbrev pub hands_over : Links → String → ℕ → Bool
hands_over none group_id rank = false
hands_over (some direct) group_id rank = direct group_id rank

module _ (links : Links) where
  abbrev pub send_far : Group → ℕ → List ℕ → Option Member → List Delivery
  send_far group rank payload none = []
  send_far group rank payload (some m) =
      if not (m.peer_id == "") && hands_over links group.group_id rank
      then to_peer group.group_id group.rank rank payload ∷ []
      else to_hub group.group_id group.rank rank payload ∷ []

  -- `_send_to`
  unfoldable pub send_to : GroupTable → Group → ℕ → List ℕ → List Delivery
  send_to table group rank payload = elim (local_task group.group_id rank table) [
    | some task_id ↦ to_task task_id payload group.rank ∷ []
    | none ↦ send_far group rank payload (lookup rank group.members)
  ]

  -- Every other member, in the order of the group.
  unfoldable pub send_each : GroupTable → Group → List ℕ → List ℕ → List Delivery
  unfolding send_to
  send_each table group payload [] = []
  send_each table group payload (rank ∷ ranks) =
      let rest = send_each table group payload ranks in
      if eqb rank group.rank then rest else send_to table group rank payload ++ rest

  -- `_from_task`
  unfoldable pub from_task : String → ℤ → List ℕ → TaskCommands → Result TaskRefused (List Delivery)
  unfolding send_each send_to
  from_task task_id to_rank payload c = elim (of task_id c.groups) [
    | none ↦ err (no_group task_id)
    | some group ↦ elim to_rank [
      | negsuc n ↦ ok (send_each c.groups group payload (keys group.members))
      | pos rank ↦
          if is_some (lookup rank group.members)
          then ok (send_to c.groups group rank payload)
          else err (no_rank rank (size group))
    ]
  ]

-- `on_task_message`: who gets a message that came from another node.
unfoldable pub on_task_message : String → ℕ → ℕ → List ℕ → TaskCommands → List Delivery
on_task_message group_id from_rank to_rank payload c = elim (local_task group_id to_rank c.groups) [
  | none ↦ []
  | some task_id ↦ to_task task_id payload from_rank ∷ []
]
