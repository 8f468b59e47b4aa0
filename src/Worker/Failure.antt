-- ===== src/Worker/Failure.antt =====
-- worker/loop.py: what the worker writes for a delivery whose handling has failed. The schedule of
-- the backoff, the acknowledgement and telemetry are left out.
pub mod Outcomes
use agentic_cartoon_demo.Base.{
  ℕ, ◌+◌, Bool, true, false, not, ◌&&◌, String, Option, none, some, if◌then◌else◌,
}
use agentic_cartoon_demo.Config.{TaskType, WorkflowConfig}
use agentic_cartoon_demo.Exceptions.{ok, err}
use agentic_cartoon_demo.Persistence.Types.{TaskRecord, TaskStatus}
use agentic_cartoon_demo.Persistence.Session.{
  Db, Action, pure, raise, and_then, ◌>>=◌, ◌>>◌, require_active, transaction,
}
use agentic_cartoon_demo.Persistence.WorkflowRepo.{Repo, update_task}
use agentic_cartoon_demo.Workflow.Types.{TransitionSignal}
use agentic_cartoon_demo.Workflow.Engine.{TransitionRequest, apply_transition}
use agentic_cartoon_demo.Worker.Types.{TaskMessage}
use agentic_cartoon_demo.Worker.StateGuard.{expected_state_for_task}
use agentic_cartoon_demo.Worker.Retry.{RetryPolicies, is_exhausted}

abbrev pub failure_signal : Bool → TransitionSignal
failure_signal exhausted =
    if exhausted then TransitionSignal.retries_exhausted else TransitionSignal.unrecoverable_error

abbrev pub failure_status : Bool → TaskStatus
failure_status exhausted = if exhausted then TaskStatus.dead_letter else TaskStatus.failed

abbrev pub failure_request : TaskMessage → TaskType → Bool → String → TransitionRequest
failure_request message task_type exhausted error_class = record {
  workflow_id = message.workflow_id;
  expected_state = expected_state_for_task task_type;
  signal = failure_signal exhausted;
  reason = error_class;
  actor = none;
}

-- The one write of `_handle_retryable_failure`.
abbrev pub write_retry : TaskRecord → ℕ → String → Action (Unit {0})
write_retry task_record attempt reason = do
  _ ← update_task task_record.task_id TaskStatus.dispatched (some (attempt + 1)) (some reason) none
  pure tt

-- `_handle_retryable_failure`
unfoldable pub handle_retryable_failure : TaskRecord → ℕ → String → Action (Unit {0})
unfolding transaction update_task
handle_retryable_failure task_record effective_attempt reason =
    transaction (write_retry task_record effective_attempt reason)

module _ (repo : Repo) (config : WorkflowConfig) where
  abbrev pub mark_task : TaskRecord → TaskStatus → String → Action (Unit {0})
  mark_task task_record status error_class = do
    _ ← update_task task_record.task_id status none (some error_class) none
    pure tt

  -- The body of the first transaction of `_handle_permanent_failure`.
  abbrev pub write_failure : TaskMessage → TaskType → TaskRecord → String → Bool → Action (Unit {0})
  write_failure message task_type task_record error_class exhausted = do
    require_active
    _ ← apply_transition repo config (failure_request message task_type exhausted error_class)
    mark_task task_record (failure_status exhausted) error_class

  -- `_handle_permanent_failure`
  unfoldable pub handle_permanent_failure :
      TaskMessage
      → TaskType
      → TaskRecord
      → String
      → (exhausted skip_transition : Bool) → Action (Unit {0})
  unfolding transaction update_task apply_transition
  handle_permanent_failure message task_type task_record error_class exhausted true =
      transaction (mark_task task_record TaskStatus.failed error_class)
  handle_permanent_failure message task_type task_record error_class exhausted false =
      transaction (write_failure message task_type task_record error_class exhausted)

  -- The last `except` of `_process_delivery`.
  unfoldable pub handle_failure :
      RetryPolicies
      → TaskMessage
      → TaskType
      → TaskRecord
      → (effective_attempt : ℕ) → (retryable : Bool) → (error_class reason : String)
      → Action (Unit {0})
  unfolding handle_retryable_failure handle_permanent_failure
  handle_failure policies message task_type task_record effective_attempt retryable error_class
        reason =
      let exhausted = is_exhausted policies effective_attempt task_type in
      if retryable && not exhausted
      then handle_retryable_failure task_record effective_attempt reason
      else handle_permanent_failure message task_type task_record error_class exhausted false
