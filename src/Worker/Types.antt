-- ===== src/Worker/Types.antt =====
-- worker/types.py, task_queue/types.py and the frame of worker/loop.py for one delivery. Trace
-- carriers are left out.
use agentic_cartoon_demo.Base.{ℕ, String, Option}
use agentic_cartoon_demo.Config.{TaskType}
use agentic_cartoon_demo.Persistence.Types.{TaskRecord, WorkflowRecord, IdempotencyRecord}
use agentic_cartoon_demo.Workflow.Types.{WorkflowState, TransitionSignal}

pub data TaskHandlerOutcome : Type 0 where
  completed retryable_failure permanent_failure duplicate_reused : TaskHandlerOutcome

pub data DuplicateResolution : Type 0 where
  ignored_before_execution detected_during_execution rejected_during_commit : DuplicateResolution
  reused_committed_result : DuplicateResolution

pub data IdempotencyPhase : Type 0 where
  not_started already_completed claimed duplicate_rejected : IdempotencyPhase

pub record TaskHandlerResult : Type 0 where
  pub outcome : TaskHandlerOutcome
  pub transition_signal : Option TransitionSignal
  pub reason : Option String
  pub result_artifact_id : Option String
  pub error_class : Option String

pub record IdempotencyCheckResult : Type 0 where
  pub phase : IdempotencyPhase
  pub idempotency_key : String
  pub existing_record : Option IdempotencyRecord
  pub duplicate_resolution : Option DuplicateResolution

pub record IdempotencyClaimResult : Type 0 where
  pub phase : IdempotencyPhase
  pub idempotency_key : String
  pub claimed_by : IdempotencyRecord
  pub duplicate_resolution : Option DuplicateResolution

pub record TaskMessage : Type 0 where
  pub task_id : String
  pub workflow_id : String
  pub task_type : TaskType
  pub attempt : ℕ
  pub created_at : ℕ
  pub payload_reference : String

pub record PendingDelivery : Type 0 where
  pub message : TaskMessage
  pub stream : String
  pub consumer_group : String
  pub delivery_id : String
  pub dequeued_at : ℕ

-- `DeliveryContext`, with the fields that the paths of the commit read.
pub record DeliveryContext : Type 0 where
  pub delivery : PendingDelivery
  pub task_record : TaskRecord
  pub workflow_record : WorkflowRecord
  pub task_type : TaskType
  pub workflow_state : WorkflowState
  pub idempotency_key : String
  pub effective_attempt : ℕ
