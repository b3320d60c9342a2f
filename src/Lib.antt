-- ===== src/Lib.antt =====
-- Verification library of microoperator, a daemon that runs systems of agents under token budgets,
-- quotas and administrative grants. Modelled are the Go package internal/state, which owns the durable
-- state and decides every transition of it, and what stands between it and a worker or a provider of
-- models: internal/protocol, internal/worker, internal/provider and a part of internal/daemon.
--
-- The program. The daemon (internal/daemon) receives commands, supervises workers and calls the
-- providers of models. Every decision is a transaction of internal/state on a SQLite database. An
-- administrative configuration (internal/state/config.go) says which providers, models, quota
-- groups, sandbox profiles and tools there are. A system has a revision of a definition, with
-- grants that bind it to digests of the administrative definitions. A system's goals are worked on
-- by tasks of agents; a task asks a model through a model call, which waits until the broker
-- (internal/state/broker.go) admits it against budgets and quotas, and settles it with what the
-- provider reports. The daemon and the worker of an activation exchange frames of JSON
-- (internal/protocol): the worker (internal/worker/operator.go) asks for a model call, is told
-- what to do, and says how it ended. Tasks reach each other by events, which are delivered through
-- mailboxes, and keep knowledge in memories, schedules and subscriptions.
--
-- The files.
--   Base: lists, texts as bytes, signed numbers, and Go's error results (`Result`, `Error`).
--   Config: internal/state/config.go, bootstrap.go, resources.go, generated.go. Names, Tools,
--     Sandbox, Admin, System and Bootstrap are the functions; `validate_definitions` is the body of
--     Configuration.Validate. Distinct, Checks and Validity state what the checks accept.
--   Store: the tables of the SQLite schema (store.go, execution_store.go, team_store.go,
--     learning_store.go, knowledge_store.go) as lists of rows, in the order of insertion, and the
--     queries on them.
--   Access: what operations read and check before they act. Read: readTask, readAgent,
--     readExecution. Pins: loadLocalTools, authorizeLocalPin, authorizePins, authorizeModel,
--     narrowToolPins. Inspect: readSystem, GrantsFor, Inspect. Learning: readEvaluation,
--     learningEligible, admitLearningUses. Grants states what the checks of pins guarantee.
--   Broker: Budget is budgetAgents, checkTaskAdmission and chargeAgents (team_ops.go); Queue, Quota,
--     Admit and Settle are internal/state/broker.go and CancelModelCall. Decision relates one turn of
--     the loop of `admit` to its outcomes; Capacity, Credit, Admission and Guarantees follow the loop.
--     Follows keeps track of a call through its updates, Once follows a settlement, and Final a
--     cancellation.
--   Ledger: the invariant of the reserved tokens, through each operation (Sums, Charge, Steps,
--     Frames, Keeps, Admitted, Closing, Settled), the
--     constraints on its columns (Constraints, Commits), and the histories of operations (History).
--   Commands: `command` of store.go, the receipts of administrative commands, and their repetition.
--   Teams: Events is emitEvent (team_store.go), Causes and Budget what it keeps; Continue is
--     internal/state/continuous.go; Terminate is terminateTask (team_ops.go), Live and Ends its
--     termination, Closed and Ended what it leaves of the task; Wakes is wakeEligible and
--     notifySubscriptions (wakeups.go), Woken what the former guarantees.
--   Knowledge: internal/state/knowledge.go. Memory and Locks are putMemory; Search, Order and Pages are
--     searchMemory and its pages; Wakeups and Capacity are schedules and subscriptions.
--   Protocol: Json is ScanJSONValue and DecodeJSON on the tokens of a text, Accepts what they accept,
--     Frames the messages and their writing and reading (json.go, message.go, auth.go).
--   Provider: internal/provider/chat.go. Request is the classification and reading of an answer, Chat
--     and Stream the reader of streams, Redact the removal of credentials, Arguments the check of a
--     tool's arguments (registry.go); Completions, Bounds and Secrets follow Request.
--   Worker: Operator is internal/worker/operator.go.
--   Daemon: Activation is the dialogue of runActivation (internal/daemon/execution.go), Session runs
--     it against a worker, Replies and Dialogue follow the two.
--   Examples: a database and a configuration, and runs on them.
--
-- How the code corresponds. A function has the name of the source in snake case. A transaction is a
-- function from the database that it reads to the database that it commits, or to its error, which
-- commits nothing; SQL statements that fail for reasons of their own (I/O, cancellation) are not
-- modelled, constraint violations that an operation could cause are (`fault`). A JOIN on a primary
-- key is a lookup. JSON columns hold their decoded values. A Go map is an association list.
-- A Go string is the list of its bytes. int64 is the integers: wrap-around is not modelled. Times
-- are Unix milliseconds; `now` and `wall` of `Env` are the time passed in and time.Now(). The credit
-- of a quota group, a float64 of requests, is an exact integer of 1/60000 requests.
--
-- Parameters: the digests of tools, profiles and definitions (encoding/json and crypto/sha256), the
-- parsing and classification of URLs and addresses (net/url, net), what a provider answers, new ids
-- (NewID), the encoding of payloads, entries and frames and the decoding of typed values
-- (encoding/json), strings.ToLower on names, time.Parse, zones, and the parser of cron expressions.
--
-- Bounds and fuel. `visit` follows dependencies of tools for at most 33 levels, as the source does.
-- The walks of `budget_agents` have one step for every row of their table and one more: each step
-- but the last adds an id that the walk has not met, so that they end before the fuel does.
--
-- The scan of JSON has one step for every token. `terminate_task` goes from a task to its parent on
-- fuel: every parent that it goes on to is live and then live no more, and at most one task is new.
-- `read_all`, a reader of pages, has one step for every request.
--
-- Not modelled: the daemon's transport and supervision, the HTTP client of a provider, the launcher of
-- sandboxes, the user interfaces, migrations, read-only views, the columns that are only shown
-- (correlation_id, authorization_ref), the firing of schedules, the claim and the finish of deliveries,
-- and what the commands that create, revise, start and stop systems do.
pub mod Base
pub mod Config
pub mod Store
pub mod Access
pub mod Broker
pub mod Ledger
pub mod Protocol
pub mod Provider
pub mod Worker
pub mod Daemon
pub mod Knowledge
pub mod Teams
pub mod Commands
pub mod Examples
