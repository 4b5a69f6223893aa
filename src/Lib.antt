-- ===== src/Lib.antt =====
-- Looma rents out machines: an orchestrator accepts nodes, places work on them and keeps the
-- books; an agent on each node runs tasks on its cards; a model that is too large for one node is
-- run by stages, which pass batches to each other. This library models the parts that decide, as
-- functions on explicit states, and proves what makes them right.
--
-- The orchestrator, src/looma:
--   Accounts      accounts/store.py: accounts, sessions and API keys as tables; each method of
--                 `Accounts` is a function of the same name. Accounts/Caller is api/auth.py:
--                 `Authenticator.identify` and `refuse`, the gate in front of every route.
--   Keys          orchestrator/keys.py: `KeyStore`, the join keys of the nodes.
--   Hub           orchestrator/agents.py: `AgentHub`, the sessions of the agents, the tasks, the groups
--                 and what is sent to whom. Hub itself has the records and `AgentSession.send`;
--                 Hub/Placing chooses nodes (`_choose_for_group`, `_placement_nodes_with`), Hub/Tasks
--                 is `submit`, `stop` and `release`, Hub/Grouping `submit_group`, Hub/Ending
--                 `stop_group`, `forget_group` and `prune`, Hub/Reports `on_task_state` and
--                 `on_telemetry`, Hub/Channels what waits for an answer of a node (results, requests
--                 over HTTP, tunnels), Hub/Requests the calls that wait, Hub/Gateway `attach` and
--                 `detach`, and Hub/Storing `flush` and `restore` with orchestrator/state.py.
--                 Hub/Life is the abstract machine that the life of a task refines.
--   Placement     orchestrator/resources.py: `choose_node` and what it counts with.
--   Connectivity  orchestrator/connectivity.py: which nodes can work together, `verdict`.
--   Preemption    orchestrator/preemption.py: `plan` and `standing_from`, which groups give way.
--   Waiting       orchestrator/waiting.py: `WaitingRoom`, the queue of leases without nodes.
--   Deployments   usage/deployments.py: what was put out and has to come back.
--   Ledger        usage/ledger.py: rates, leases, tokens and credits; Ledger/Report is `report` and
--                 `balance`.
--   Training      usage/training.py: the records of training jobs, in memory and as a table.
--   Releases      orchestrator/releases.py: `ReleaseStore`, the rollout of the agent by waves.
-- The agent, agent/looma_agent:
--   Registry      tasks/registry.py: `TaskRegistry`, tasks and cards.
--   Groups        tasks/groups.py: `GroupTable`, who else is in a job.
--   EnvCache      tasks/env/cache.py: `EnvironmentCache`, environments that are built once, leased to
--                 tasks and evicted.
--   Transfer      transport/files.py and `_receive_all` of control/tasks.py: files that come in pieces.
--   Commands      control/tasks.py: what the agent does with a message of the hub, of a task and of
--                 another node; Commands/Answering is the answer to a request over HTTP and the
--                 sending of a result, by pieces.
-- Its launcher, agent/looma_launcher:
--   Launcher      supervise.py and payload.py: `Supervisor`, releases of the agent and their rollback.
-- A model stage, payloads/looma_stage/looma_stage:
--   Scheduler     scheduler.py: `Scheduler`, the batches of the first stage.
--   Wire          batch_wire.py: how a batch travels to the next stage; it uses Scheduler.
--
-- They meet as follows. A request comes in through Accounts/Caller; a lease is opened in Ledger at
-- the rate of the moment; its nodes come from Placement, or from Preemption, which spares what
-- Deployments protects; Connectivity judges the nodes, Waiting keeps what could not be served. The
-- hub places the tasks with what Placement says, sends each to its agent with its inputs in
-- pieces, which the agent puts together by Transfer, and tells the members of a job of each other,
-- which the agent keeps in Groups and asks when Commands passes a message on. Answers come back by
-- Commands/Answering and Hub/Channels, states and telemetry by Hub/Reports. The agents' registries
-- hand out the cards, EnvCache the environments; the scheduler of the first stage forms batches,
-- and Wire takes them on.
--
-- In each part the file named after it holds the model, and its children hold the proofs, named
-- for what they prove, and Tests with runs at concrete values. Base has the shared helpers: tests
-- on numbers and texts, lists, dictionaries in insertion order, sorting, integers.
--
-- A method that runs under one lock is one function from state to state; where a lock is let go in
-- between, as in `submit` and `release` of the registry, each locked part is a function and the
-- theorems go over every order of them. The methods of `TaskCommands` and of `EnvironmentCache`
-- hold no lock over a whole call but run on several threads; each is one function all the same, so
-- a theorem on a sequence of calls takes each call as one step, and runs in Tests show what comes
-- of a call between. A table of the database is a list or a dictionary of rows, and a statement of
-- SQL the function of the rows that it stands for. Exceptions are values of a type of errors. The
-- clock and all random values are arguments, so a theorem holds for every reading. Loops are
-- recursions on lists, but for three: the pieces of a file, the rounds of the choice of nodes for
-- a group, and the digits of a number. The first runs on as much fuel as the file has bytes, and a
-- piece has at least one; the second on the number of members, which is the number of rounds; the
-- third on one more than the number, and each digit makes it smaller. Numbers are unbounded, as in
-- Python; the columns of the database, of 64 bits, are not modelled as bounded.
--
-- Parameters, for code that is not in the repository: the hashes of passwords and tokens, the
-- base64 and JSON of a join key, the digest of an archive and the bucket of a node in a rollout,
-- the `lower` of the database, the digest of a file, whether a path stays in its directory once it
-- is resolved, what the `ipaddress` module says of an address, and how doubles multiply in the
-- cost of a lease; and as arguments, whether the links hand a message over to another node, what
-- the check of a release says, what a run of the agent did, whether the disk failed (for the file
-- of join keys, a field of the store), the answer of a task that was asked over HTTP, and all new
-- ids. Nothing is assumed about them but what a theorem says: that a new id stands for nothing
-- yet.
--
-- Not modelled: what talks to the operating system, to the network or to a library for most of its
-- length (the HTTP routes, the gRPC streams around the hub, the runner and sandbox of tasks,
-- libp2p links, the vLLM and PyTorch engines, Ray), the generated protobuf code, the web and
-- desktop clients, the wording of messages, and rounding for display. Gigabytes, which the code
-- has as floats, are whole bytes. The `strip` of the version that is published is left out. A task
-- whose inputs meet on the disk, because one is or lies below the file or the partial file of
-- another, has no result in the model.
pub mod Accounts
pub mod Base
pub mod Commands
pub mod Connectivity
pub mod Deployments
pub mod EnvCache
pub mod Groups
pub mod Hub
pub mod Keys
pub mod Launcher
pub mod Ledger
pub mod Placement
pub mod Preemption
pub mod Registry
pub mod Releases
pub mod Scheduler
pub mod Training
pub mod Transfer
pub mod Waiting
pub mod Wire
