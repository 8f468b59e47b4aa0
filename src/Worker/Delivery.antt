-- ===== src/Worker/Delivery.antt =====
-- worker/loop.py: `_process_delivery`, with worker/lease.py. A run returns whether the message was
-- acknowledged. The slots of the concurrency pool, the timer that renews the lease, telemetry,
-- failure injection, a failure of the queue's own `ack`, and the flag `skip_ack` of the tests are left
-- out.
pub mod Settled
pub mod Acknowledged
pub mod Released
mod Tests
use agentic_cartoon_demo.Base.{
  ℕ, Bool, true, false, not, ◌&&◌, String, ◌+str+◌, show_nat, Option, none, some, if◌then◌else◌,
}
use agentic_cartoon_demo.Config.{TaskType, WorkflowConfig, task_type_value}
use agentic_cartoon_demo.Exceptions.{Exception, Result, ok, err, lease_conflict, handler_not_found}
use agentic_cartoon_demo.Persistence.Types.{TaskRecord, TaskLease, WorkflowRecord}
use agentic_cartoon_demo.Persistence.Session.{
  Db, Action, pure, raise, and_then, ◌>>=◌, ◌>>◌, require_active, transaction,
}
use agentic_cartoon_demo.Persistence.WorkflowRepo.{Repo, get_task, get_workflow}
use agentic_cartoon_demo.Persistence.TaskLeaseRepo.{try_acquire, release}
use agentic_cartoon_demo.Worker.Types.{
  TaskMessage, PendingDelivery, DeliveryContext, IdempotencyPhase,
}
use agentic_cartoon_demo.Worker.StateGuard.{StaleAction, classify_stale_task}
use agentic_cartoon_demo.Worker.Idempotency.{check_before_execution}
use agentic_cartoon_demo.Worker.Retry.{
  RetryPolicies, effective_attempt, is_exhausted, classify_exception,
}
use agentic_cartoon_demo.Worker.Handlers.{Outside}
use agentic_cartoon_demo.Worker.Handlers.LogicalVersion.{resolve_logical_version}
use agentic_cartoon_demo.Worker.Handlers.Stages.{handle}
use agentic_cartoon_demo.Worker.Commit.{commit_success_path}
use agentic_cartoon_demo.Worker.Failure.{handle_failure, handle_permanent_failure}

-- What the loop is built with: the collector and the agents, the retry policies, the worker's name,
-- the lifetime of its leases in microseconds, and `str(err)` of an exception.
pub record Loop : Type 0 where
  pub outside : Outside
  pub policies : RetryPolicies
  pub worker_id : String
  pub ttl : ℕ
  pub text_of : Exception → String

-- `build_idempotency_key` of worker/idempotency.py
unfoldable pub build_idempotency_key : String → TaskType → ℕ → String
unfolding task_type_value show_nat
build_idempotency_key workflow_id task_type logical_version =
    workflow_id
    +str+ (":" +str+ (task_type_value task_type +str+ (":" +str+ show_nat logical_version)))

-- `try: … finally: …`
abbrev pub finally_do {ℓ} : {A : Type ℓ} → Action A → Action (Unit {0}) → Action A
finally_do m last db =
    let (r, after) = m db in let (q, end) = last after in and_then q (λ _ d. (r, d)) end

-- `try: … except …`
abbrev pub handled {ℓ} : {A : Type ℓ} → (Exception → Action A) → Result A → Action A
handled handler (ok a) = pure a
handled handler (err e) = handler e

abbrev pub try_except {ℓ} : {A : Type ℓ} → Action A → (Exception → Action A) → Action A
try_except m handler db = let (r, after) = m db in handled handler r after

abbrev pub context_of : PendingDelivery → TaskRecord → WorkflowRecord → String → DeliveryContext
context_of delivery task workflow key = record {
  delivery = delivery;
  task_record = task;
  workflow_record = workflow;
  task_type = task.task_type;
  workflow_state = workflow.state;
  idempotency_key = key;
  effective_attempt = effective_attempt task delivery.message;
}

module _ (repo : Repo) (config : WorkflowConfig) (loop : Loop) (delivery : PendingDelivery)
    (task : TaskRecord) (workflow : WorkflowRecord) where
  abbrev pub attempt : ℕ
  attempt = effective_attempt task delivery.message

  -- The body of the transaction: the handler, and what is committed.
  unfoldable pub run_task : String → Action (Unit {0})
  run_task key = do
    require_active
    result ← handle loop.outside delivery.message task.task_type task
    commit_success_path repo config (context_of delivery task workflow key) result

  abbrev pub execute : String → IdempotencyPhase → Action Bool
  execute key IdempotencyPhase.already_completed = pure true
  execute key _ = transaction (run_task key) >> pure true

  -- What is done under the lease.
  unfoldable pub work : Action Bool
  unfolding run_task resolve_logical_version check_before_execution build_idempotency_key
  work = do
    logical_version ← resolve_logical_version loop.outside task.task_type task delivery.message
    let key = build_idempotency_key delivery.message.workflow_id task.task_type logical_version
    pre ← check_before_execution key
    execute key pre.phase

  -- The `except` clauses.
  unfoldable pub on_exception : Exception → Action Bool
  unfolding handle_failure handle_permanent_failure classify_exception
  on_exception (lease_conflict _) = pure false
  on_exception (handler_not_found type) =
      handle_permanent_failure repo config delivery.message type task "WKR_NO_HANDLER" false false
      >> pure true
  on_exception e =
      let (retryable, error_class) = classify_exception e in
      handle_failure repo config loop.policies delivery.message task.task_type task attempt
        retryable error_class (loop.text_of e)
      >> pure (not (retryable && not (is_exhausted loop.policies attempt task.task_type)))

  abbrev pub under_lease : Option TaskLease → Action Bool
  under_lease none = on_exception (lease_conflict delivery.message.task_id)
  under_lease (some lease) = finally_do (try_except work on_exception) (release lease.lease_id)

  -- From the lease on. Its release before the acknowledgement of a success is that of the `finally`
  -- clause here: the acknowledgement is what a run returns.
  unfoldable pub process_task : Action Bool
  unfolding work on_exception
  process_task = do
    lease ← try_acquire delivery.message.task_id loop.worker_id loop.ttl
    under_lease lease

module _ (repo : Repo) (config : WorkflowConfig) (loop : Loop) (delivery : PendingDelivery) where
  abbrev pub process_fresh : (deferred : Bool) → TaskRecord → WorkflowRecord → Action Bool
  process_fresh true task workflow = pure false
  process_fresh false task workflow = process_task repo config loop delivery task workflow

  abbrev pub process_unless_stale :
      (deferred : Bool) → TaskRecord → WorkflowRecord → StaleAction → Action Bool
  process_unless_stale deferred task workflow StaleAction.proceed =
      process_fresh deferred task workflow
  process_unless_stale deferred task workflow _ = pure true

  abbrev pub process_found :
      (deferred : Bool) → Option TaskRecord → Option WorkflowRecord → Action Bool
  process_found deferred (some task) (some workflow) =
      process_unless_stale deferred task workflow
        (classify_stale_task workflow.state task.task_type).action
  process_found deferred _ _ = pure false

  -- `_process_delivery`; `deferred` is the answer of `should_defer`, whose table of waiting times is
  -- in the worker's memory.
  unfoldable pub process_delivery : (deferred : Bool) → Action Bool
  unfolding process_task get_task get_workflow classify_stale_task
  process_delivery deferred = do
    task ← get_task delivery.message.task_id
    workflow ← get_workflow delivery.message.workflow_id
    process_found deferred task workflow
