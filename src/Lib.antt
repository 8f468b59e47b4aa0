-- ===== src/Lib.antt =====
-- A model of the durable core of the agentic cartoon demo: the workflow engine, the repositories that
-- it writes through, the scanner that repairs stuck workflows, and the worker that executes a task
-- and commits its outcome.
--
-- The program moves a cartoon workflow through a state machine: collect stories, select a topic,
-- generate a scenario, review it (with a bounded number of revisions), and wait for a person. The
-- engine (src/workflow) computes each move from a table, and writes the workflow's row, an audit
-- record, and, when the new state waits for a task, the task with an entry of the transactional
-- outbox. The repositories (src/persistence) do the SQL, inside a transaction that commits or rolls
-- back as a whole. The worker (src/worker) takes a delivered task, checks that it is not stale, holds
-- a lease on it, runs the handler of its type, and commits its result: an insert-once completion
-- record, the engine's transition, and a bridge transition to the next state in which work is done.
-- The coordinator (src/runtime/outbox.py) sends the outbox entries to the task queue, and the
-- reconciliation scanner (src/workflow/reconcile.py) dispatches tasks again, or gives workflows up.
--
-- Files, and what they model:
--   Base, Base/*: tests on numbers and texts, lists, tables with a text as primary key.
--   Config: TaskType and WorkflowConfig of src/config/types.py.
--   Exceptions: the exceptions of src/persistence/errors.py, src/workflow/errors.py and
--     src/worker/errors.py, and those of the providers, the agents and the collector, without the
--     texts of their messages; Result.
--   Persistence/Types: the records of src/persistence/types.py.
--   Persistence/Json: the operations on JSON values that the handlers use.
--   Persistence/Session: the database, methods as state passing with exceptions, and
--     PostgresTransactionManager.transaction of src/persistence/transaction.py; Keeps is about
--     relations that every part of a run keeps.
--   Persistence/WorkflowRepo, OutboxRepo, IdempotencyRepo, TaskLeaseRepo, ArtifactRepo: the methods of
--     src/persistence/repos/workflow.py, outbox.py, idempotency.py, task_lease.py, artifact.py; their
--     children Effects, Progress, Exclusion, RoundTrip and Duplicate hold the lemmas on what each
--     method leaves behind. Persistence/Listings: the methods that only the in-memory repositories of
--     src/workflow/fakes have.
--   Workflow/Types, TransitionTable: src/workflow/types.py, constants.py, transition_table.py; Graph is
--     the state diagram as a relation, and Ahead is about the way to the human approval.
--   Workflow/OutboxBuilder, Executor, Engine: src/workflow/outbox_builder.py, executor.py, engine.py
--     and ids.py. Engine's children invert the three methods (Inversion, Outcomes, Approval,
--     Initiate), list their errors (Refusals) and say when a transition returns (Progress,
--     Completion, Revision).
--   Workflow/Reconcile: the data and tests of src/workflow/reconcile.py; Collect and Repair are
--     collect_candidates and scan_and_repair, and the other children their properties.
--   Workflow/ReadModels: src/workflow/read_models.py and the queries of engine.py; Output is
--     assemble_output, Timeline and Summary their properties.
--   Workflow/Commands: the calls of the engine, each in its transaction, and the scans of the
--     reconciliation, in any sequence; Invariants: what they keep.
--   Worker/Types, StateGuard, Idempotency, Commit: src/worker/types.py, state_mapping.py,
--     idempotency.py, and the commit path of loop.py.
--   Worker/Retry, Failure: retry.py and the failure paths of loop.py.
--   Worker/Handlers: src/worker/handlers, with resolve_logical_version of idempotency.py.
--   Worker/Delivery: _process_delivery of loop.py, with the lease of lease.py.
--   Runtime/Publisher: src/runtime/outbox.py, with the answers of the queue (enqueue of
--     src/task_queue/redis_queue.py) as a parameter; a call may raise although the message was taken,
--     as when XADD's reply comes too late. Delivery, Counts and Attempts are about an entry, a batch,
--     and the calls for one message.
--   TaskQueue: the fields that carry a message through the queue, src/task_queue/validation.py and
--     serializer.py.
--   Api: src/api/validation.py, with the limits of constants.py.
--   The modules named Tests: runs and instances on small inputs.
--
-- How the code is read:
--   A table is the list of its rows in the order of insertion. The primary keys, unique keys and
--   foreign keys of migrations/ that an INSERT can violate are tests in front of it, with the
--   exception that the repository raises. Connections, their pool and its failures are left out.
--   A rollback brings back the tables; str(uuid4()) and datetime.now(UTC) are answered by the
--   environment by the number of the request, which a rollback does not bring back, and nothing is
--   assumed of the answers but where a theorem says so. A datetime is a number of microseconds.
--   The two enumerations of workflow states (src/persistence/types.py and src/workflow/types.py) have
--   the same members and are one type here, so the conversions between them are the identity.
--   The engine runs on the PostgreSQL repository or on the in-memory one of src/workflow/fakes; they
--   differ in update_workflow_state, in the listing methods that PostgreSQL has not, and in the
--   transaction: that of src/workflow/fakes/transaction.py neither rolls back nor refuses to nest. The
--   model differs in the first two only, and both repositories run in PostgreSQL's transactions; the
--   transitions of one time are listed as PostgreSQL does, by their insertion.
--   TransitionRequest's completing_task_id and idempotency_key, and TransitionDecision's
--   append_transition, are read by no modelled code and are left out.
--   The loop of the worker's bridge transitions runs on one unit of fuel: a bridge leads to a
--   state in which the loop returns.
--   A handler's requests to the collector and to the agents are answered by a parameter, by the
--   number of the request; json.loads, int of a text, and the printing and reading of datetimes are
--   parameters too. The scanner's set of transient states is a list in the order in which it is
--   walked through.
--
-- Not modelled: the HTTP API behind its validation, the CLI, the collector, the agents and the model
-- providers, telemetry, failure injection, configuration loading and process wiring (input and
-- output, or code around libraries); of the modelled parts, the trace context of a message, the
-- worker's polling threads, concurrency slots, lease timers and backoff, and the conversion of stored
-- content into an agent's input.
pub mod Base
pub mod Config
pub mod Exceptions
pub mod Persistence
pub mod Workflow
pub mod Worker
pub mod Runtime
pub mod TaskQueue
pub mod Api
