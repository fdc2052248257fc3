-- ===== src/Lib.antt =====
-- The verification library of DaSwarm.
--
-- The program has these parts. The control plane of the swarm (backend/app/swarm) keeps objects, edges,
-- events, an outbox, jobs, projections and idempotency records in one SQL database. Operators send
-- commands to `Service.execute`; workers claim jobs under leases, and finish or fail them; a dispatcher
-- relays the outbox to the transport and announces due jobs again. The chat agent (backend/app/domain)
-- has plans, todo lists and a memory that it keeps within a budget; skills come as archives of files, and
-- the sandbox (sandbox/app) shuts itself down when its timeout has run out.
--
-- Base holds the shared names: native numbers, tests, lists, tables of rows, texts. A file lies where its
-- module's name says:
--   Swarm.Errors, Swarm.Json         exceptions as values; JSON values (numbers in millionths where they
--                                    are no integers)
--   Swarm.Contracts, Contracts.Tables
--                                    backend/app/swarm/domain/contracts.py and the YAML files of
--                                    backend/swarm_contracts: `validate_transition`, `validate_metadata`
--   Swarm.Database                   backend/app/swarm/infrastructure/database.py: the tables as lists of
--                                    rows, newest first, and a transaction, which takes the world and the
--                                    tables to a result and new tables, or fails and is rolled back
--   Swarm.Objects, Swarm.Service     backend/app/swarm/application/service.py: `get`, `event`, `create`,
--                                    `change`, `link`, `schedule`
--   Swarm.Configuration              `validate_config` and the settings of the same file
--   Swarm.Commands and its children  `execute`, one definition for each group of actions
--   Swarm.Worker, Worker.Endings     backend/app/swarm/application/worker.py: `claim`, `heartbeat`,
--                                    `fence`, and the two endings of `execute`
--   Swarm.Dispatcher                 backend/app/swarm/infrastructure/dispatch.py: `once`, `requeue_due`
--   Swarm.Ledger                     the specification: the event ledger, and what the tables owe to it
--   Agent.Plan                       backend/app/domain/models/plan.py, services/plan_progress.py
--   Agent.Todo                       backend/app/domain/services/todo_projection.py
--   Agent.Memory                     backend/app/domain/models/memory.py
--   Agent.Calls, Agent.Loop          backend/app/domain/services/agents/base.py: the round over the tool
--                                    calls of a message, and the tool loop of an agent
--   Agent.Execution, Agent.Planner   the agents of execution.py and planner.py beside it
--   Agent.Flow                       backend/app/domain/services/flows/plan_act.py: one turn of the
--                                    state machine, over both agents
--   Agent.Runner, Agent.Chat         backend/app/domain/services/agent_task_runner.py: the loop over the
--                                    messages of a session, and its chat mode
--   Skills.Archive                   backend/app/domain/skills/archive.py
--   Skills.PlanSteps                 backend/app/domain/services/skills/plan_steps.py
--   Skills.Subscriptions             backend/app/application/services/skill_service.py, over
--                                    backend/app/infrastructure/repositories
--   Sandbox.Supervisor               sandbox/app/services/supervisor.py, the routes of
--                                    sandbox/app/api/v1/supervisor.py, sandbox/app/core/middleware.py
--   Accounts.Users                   backend/app/domain/models/user.py and its repository
--   Accounts.Sessions                backend/app/infrastructure/external/session_auth/redis_session_store.py;
--                                    Redis is a parameter
--   Accounts.Passwords, Login, Access
--                                    backend/app/application/services/auth_service.py
--   Accounts.Tokens, Accounts.Urls   backend/app/application/services/token_service.py; PyJWT and
--                                    urllib are parameters
-- The other modules hold proofs, named for what they prove; the Examples modules hold runs at concrete
-- inputs.
--
-- The clock, `uuid4`, the environment, `str()` of a value that is no text, `int()` of a text, SHA-256 and
-- `random()` come from a World, which is a parameter of a transaction. A write transaction locks the
-- configuration row first, so transactions run one after another, and an interleaving of workers is a
-- sequence of them. A transaction that fails leaves the tables as they were, but for the serial numbers
-- of the events that it drew, which PostgreSQL does not take back: that is a step of the reachable
-- states. The language model may raise, and pydantic refuses a question to the user that has no text:
-- such an exception leaves the loops, and is an end of a run, of a turn and of a flow. Time is in
-- milliseconds. All recursion is structural. The tool loop has the hundred rounds of the source; the loop
-- of the flow, which may replan for ever, takes the number of its turns, and a theorem says how many are
-- enough; so does the loop of the task runner.
--
-- Not modelled: the effects of the single task types, which the ending of a task takes as a parameter and
-- the reachability theorem as a list of calls of the service; the read-only queries; the process
-- identifier in a worker's metadata; columns that no operation reads (severity, schema_version,
-- valid_from, valid_to); the texts of the prompts, and the polling of a shell while its
-- tool runs; the language model, browser, search, Docker, MongoDB and Redis adapters, the
-- HTTP routes and the frontend.
pub mod Base
pub mod Agent
pub mod Skills
pub mod Sandbox
pub mod Accounts
pub mod Swarm
