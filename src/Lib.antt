-- ===== src/Lib.antt =====
-- Verification of the deploy platform: its release controller, with the health checks and the
-- traffic routers that it drives, its build queue, its nodes with the scheduler that places releases
-- on them, the agents with their protocol, its build cache, and its rights on projects.
--
-- The parts. `src/releases.rs` keeps the releases of a project in three tables, moves them through
-- the states of `ReleaseStatus` by compare-and-set on a version, and switches the traffic of an
-- environment from one release to the next. It drives a container's health check
-- (`src/health.rs`), a traffic router (`src/traffic.rs`) and a container stopper. `src/queue.rs`
-- keeps build jobs in Postgres and announces them on two Redis streams, from which workers claim
-- them under a lease. `src/node_registry.rs` keeps the nodes, their usage and their epochs;
-- `src/scheduler.rs` chooses a node for a release, charges its usage and takes it back.
-- `src/agent_protocol.rs` signs the commands for the agents on the nodes and decides which envelopes
-- are accepted.
--
-- The files. Exec is the async code: an action takes a world (the state, and an environment that
-- fixes for each numbered interaction whether the database fails, which UUID is drawn and what the
-- clock reads) to a result and a world; what was written before an error stays. Exec/Moves,
-- Exec/Outcomes and Exec/Reverts hold the rules for such actions. Health models wait_until_healthy, with the
-- in-memory client in Health/Mock. Traffic holds the router's interface, and Traffic/Mock the
-- in-memory router. Releases/Status, Releases/Record and Releases/Tables are the data and the SQL
-- statements of src/releases.rs, each a function on the tables; Releases/Controller,
-- Releases/Orchestrate and Releases/Reconcile are the operations of ReleaseController under their
-- own names, each cut at its branches into helpers. Releases/History says how the table may change,
-- Releases/Evolution and Releases/Lifecycle follow the operations; Releases/Transitions,
-- Releases/Routing, Releases/Gate, Releases/Recovering, Releases/Recovery, Releases/Guarantees and
-- Releases/Races are about what they do.
-- Queue/Priority, Queue/Status, Queue/Tables and Queue/Redis are the data, the statements and the
-- commands of src/queue.rs; Queue/Base, Queue/Enqueue, Queue/Claim and Queue/Finish are the methods
-- of BuildQueue under their own names; Queue/History says how jobs may change, and the other files
-- of Queue follow the operations. Nodes/Record and Nodes/Tables are the rows and the statements of
-- src/node_registry.rs and of migrations/0013_nodes_scheduler.sql, Nodes/Registry the operations of
-- NodeRegistry; Scheduler/Placement, Scheduler/Score and Scheduler/Service are the data, the scores
-- and the operations of src/scheduler.rs. Nodes/History, Nodes/Steps and Nodes/Evolution say how the
-- rows of nodes change; Nodes/Errors and Scheduler/Errors are about failures; Scheduler/Cluster is
-- any sequence of operations on the cluster, and the other files of Scheduler follow them.
-- Agent/Commands, Agent/Envelope, Agent/Validator and Agent/Tokens model src/agent_protocol.rs;
-- Agent/Safety, Agent/Acceptance, Agent/Replay, Agent/Signing and Agent/Revocation are about them. Agent/Responses
-- and Agent/Server are the agent of src/agent_server.rs from an envelope to its runtime, which
-- Agent/Execution is about. Cache is src/cache.rs: Cache/Key the key of a build and
-- Cache/Canonical its independence of order, Cache/Entries the statements of the repository,
-- Cache/Repository its operations, Cache/Validity, Cache/Serving and Cache/Stored what they
-- guarantee. Access is the project rights of src/auth.rs and the permission
-- check of src/rollback.rs. Tests holds concrete runs.
--
-- Conventions. UUIDs, clock readings and durations are natural numbers; INT columns are natural
-- numbers, with the limit of the column tested where a transition adds to a version (a claim adds
-- to an attempt only below max_attempts, which is an integer and may be negative). A reading of the
-- clock is a number of nanoseconds; in src/scheduler.rs it counts from the earliest OffsetDateTime, the
-- beginning of year -9999, and the end of a lease out of the range of OffsetDateTime is a panic, which
-- is an error value of its own. Texts are native strings. Where a text column has a
-- CHECK constraint that lists its values (the queue's tables), the column holds the enum; the
-- `status` of a release is kept as its text. A SQL statement either happens as a whole or fails
-- without effect; the controller runs over a pool, so that its statements commit one by one. A
-- controller over the caller's transaction behaves alike until a statement fails. HashMaps are
-- lists of entries. No function needs fuel: the loops run over lists or count down. In the tables of
-- nodes and placements a BIGINT or INTEGER holds its bit pattern, so that the casts of the source
-- change nothing, and additions there are refused on overflow; sums of u64 in score_node wrap, as in
-- a release build. The whole seconds of a timeout or of a skew are below 2 ^ 62. NOW() is a reading
-- of the clock of its own, inside a transaction that of its beginning. A sort is an insertion sort,
-- and a query without ORDER BY answers in the order of the table.
--
-- Not modelled: the HTTP client of the health checks and the Docker side, which stand behind the
-- interfaces; Redis, which is a record of its commands; HMAC-SHA256, hex, RFC 3339, UUID bytes and
-- JSON, which are a record of functions, as is floating point; the lengths of VARCHAR columns and
-- the foreign keys of the release, queue and cache tables, for which a statement is refused like one that
-- meets a fault; the other parts of the program (the agents' HTTP handlers and client, previews,
-- API, logs, metrics, providers).
pub mod Prelude
pub mod Exec
pub mod Traffic
pub mod Health
pub mod Releases
pub mod Queue
pub mod Access
pub mod Agent
pub mod Cache
pub mod Nodes
pub mod Scheduler
pub mod Tests
