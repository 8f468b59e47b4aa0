-- ===== src/Persistence/Types.antt =====
-- persistence/types.py: the records that the repositories read and write. A datetime is a number of
-- microseconds; JSON numbers are the natural numbers, since the code stores no others here.
use agentic_cartoon_demo.Base.{ℕ, Bool, Option, String}
use agentic_cartoon_demo.Config.{TaskType}
use agentic_cartoon_demo.Workflow.Types.{WorkflowState}

mutual
  pub data JsonValue : Type 0 where
    null : JsonValue
    bool : Bool → JsonValue
    int : ℕ → JsonValue
    str : String → JsonValue
    array : JsonItems → JsonValue
    dict : JsonFields → JsonValue

  pub data JsonItems : Type 0 where
    nil : JsonItems
    item : JsonValue → JsonItems → JsonItems

  pub data JsonFields : Type 0 where
    end : JsonFields
    field : (name : String) → JsonValue → JsonFields → JsonFields

pub data TaskStatus : Type 0 where
  pending dispatched in_progress completed failed dead_letter : TaskStatus

pub data ArtifactType : Type 0 where
  collected_stories topic_selection scenario critic_review prompt_response : ArtifactType

pub data OutboxStatus : Type 0 where
  pending published : OutboxStatus

pub record PayloadReference : Type 0 where
  pub ref_id : String
  pub ref_kind : String

pub record WorkflowRecord : Type 0 where
  pub workflow_id : String
  pub state : WorkflowState
  pub state_version : ℕ
  pub created_at : ℕ
  pub updated_at : ℕ
  pub revision_count : ℕ
  pub failure_reason : Option String

pub record WorkflowTransitionRecord : Type 0 where
  pub transition_id : String
  pub workflow_id : String
  pub from_state : WorkflowState
  pub to_state : WorkflowState
  pub reason : String
  pub occurred_at : ℕ
  pub actor : Option String

pub record TaskRecord : Type 0 where
  pub task_id : String
  pub workflow_id : String
  pub task_type : TaskType
  pub attempt : ℕ
  pub status : TaskStatus
  pub payload_reference : PayloadReference
  pub idempotency_key : String
  pub created_at : ℕ
  pub updated_at : ℕ
  pub completed_at : Option ℕ
  pub failure_reason : Option String

-- A row of the table task_payloads.
pub record TaskPayload : Type 0 where
  pub ref_id : String
  pub payload : JsonValue

pub record ArtifactRecord : Type 0 where
  pub artifact_id : String
  pub workflow_id : String
  pub artifact_type : ArtifactType
  pub name : String
  pub version : ℕ
  pub logical_version : ℕ
  pub is_active : Bool
  pub created_at : ℕ

pub record ArtifactCreateSpec : Type 0 where
  pub workflow_id : String
  pub artifact_type : ArtifactType
  pub name : String
  pub version : ℕ
  pub logical_version : ℕ
  pub content : JsonValue
  pub is_active : Bool

-- A row of the table artifact_content.
pub record ArtifactContent : Type 0 where
  pub artifact_id : String
  pub content : JsonValue

pub data InvocationStatus : Type 0 where
  success validation_failed provider_error timeout : InvocationStatus

-- `estimated_cost_usd`, a Decimal that is only stored, stands as its text.
pub record AiInvocationInsertSpec : Type 0 where
  pub workflow_id : String
  pub task_id : String
  pub agent_name : String
  pub agent_version : String
  pub prompt_version : String
  pub provider : String
  pub model : String
  pub input_artifact_id : Option String
  pub output_artifact_id : Option String
  pub attempt : ℕ
  pub started_at : ℕ
  pub completed_at : Option ℕ
  pub status : InvocationStatus
  pub input_tokens : Option ℕ
  pub output_tokens : Option ℕ
  pub estimated_cost_usd : Option String

pub record AiInvocationRecord : Type 0 where
  pub invocation_id : String
  pub invocation : AiInvocationInsertSpec

pub record OutboxEntry : Type 0 where
  pub outbox_id : String
  pub workflow_id : String
  pub task_id : String
  pub task_type : TaskType
  pub payload_reference : PayloadReference
  pub idempotency_key : String
  pub status : OutboxStatus
  pub created_at : ℕ
  pub published_at : Option ℕ

pub record OutboxInsertSpec : Type 0 where
  pub workflow_id : String
  pub task_id : String
  pub task_type : TaskType
  pub payload_reference : PayloadReference
  pub idempotency_key : String

pub record TaskLease : Type 0 where
  pub lease_id : String
  pub task_id : String
  pub worker_id : String
  pub acquired_at : ℕ
  pub expires_at : ℕ

pub record IdempotencyRecord : Type 0 where
  pub idempotency_key : String
  pub workflow_id : String
  pub task_id : String
  pub completed_at : ℕ
  pub result_artifact_id : Option String
