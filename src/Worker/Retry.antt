-- ===== src/Worker/Retry.antt =====
-- worker/retry.py: the classification of failures and the count of attempts. The backoff, whose
-- seconds are floating-point numbers, is left out.
use agentic_cartoon_demo.Base.{ℕ, max, Bool, true, false, String, text_or, leb}
use agentic_cartoon_demo.Config.{TaskType}
use agentic_cartoon_demo.Exceptions.{
  Exception, ProviderErrorClass, persistence_conflict, persistence_not_found, persistence_duplicate,
  persistence_transaction, persistence_validation, persistence_connection, workflow_not_found,
  workflow_conflict, invalid_transition, invalid_approval, workflow_terminal, lease_conflict,
  task_execution, handler_not_found, provider_error, agent_input_validation,
  agent_output_validation, agent_configuration, collector_error, value_error, type_error,
  overflow_error,
}
use agentic_cartoon_demo.Persistence.Types.{TaskRecord}
use agentic_cartoon_demo.Worker.Types.{TaskHandlerOutcome, TaskHandlerResult, TaskMessage}

-- `RetryPolicy` of config/types.py, without its backoff, for each task type.
pub record RetryPolicies : Type 0 where
  pub max_attempts : TaskType → ℕ

abbrev pub effective_attempt : TaskRecord → TaskMessage → ℕ
effective_attempt task_record message = max task_record.attempt message.attempt

abbrev pub is_exhausted : RetryPolicies → ℕ → TaskType → Bool
is_exhausted policies attempt task_type = leb (policies.max_attempts task_type) attempt

-- `ProviderErrorClass.value`
abbrev pub error_class_value : ProviderErrorClass → String
error_class_value ProviderErrorClass.timeout = "timeout"
error_class_value ProviderErrorClass.rate_limit = "rate_limit"
error_class_value ProviderErrorClass.authentication = "authentication"
error_class_value ProviderErrorClass.provider_unavailable = "provider_unavailable"
error_class_value ProviderErrorClass.provider_error = "provider_error"
error_class_value ProviderErrorClass.network_error = "network_error"
error_class_value ProviderErrorClass.schema_validation = "schema_validation"
error_class_value ProviderErrorClass.unknown = "unknown"

-- `type(err).__name__` of the classes that have no clause of their own below.
abbrev pub class_name : Exception → String
class_name persistence_conflict = "PersistenceConflictError"
class_name persistence_not_found = "PersistenceNotFoundError"
class_name persistence_duplicate = "PersistenceDuplicateError"
class_name persistence_transaction = "PersistenceTransactionError"
class_name persistence_validation = "PersistenceValidationError"
class_name persistence_connection = "PersistenceConnectionError"
class_name (workflow_not_found _) = "WorkflowNotFoundError"
class_name (workflow_conflict _) = "WorkflowConflictError"
class_name (invalid_transition _ _ _) = "InvalidTransitionError"
class_name (invalid_approval _ _ _) = "InvalidApprovalActionError"
class_name (workflow_terminal _ _) = "WorkflowTerminalError"
class_name (lease_conflict _) = "LeaseConflictError"
class_name (handler_not_found _) = "HandlerNotFoundError"
class_name value_error = "ValueError"
class_name type_error = "TypeError"
class_name overflow_error = "OverflowError"
class_name _ = "RuntimeError"

-- `classify_exception`: whether to retry, and the class of the error.
unfoldable pub classify_exception : Exception → Bool × String
classify_exception (provider_error error_class retryable) =
    (retryable, error_class_value error_class)
classify_exception (collector_error code retryable) = (retryable, code)
classify_exception agent_output_validation = (false, "AGT_OUTPUT")
classify_exception agent_input_validation = (false, "AGT_INPUT")
classify_exception agent_configuration = (false, "AGT_CONFIG")
classify_exception (task_execution workflow_id task_id task_type retryable) =
    (retryable, "WKR_EXECUTION")
classify_exception e = (false, class_name e)

-- `classify_handler_result`: whether to retry, and the class of the error.
abbrev pub classify_handler_result : TaskHandlerResult → Bool × String
classify_handler_result result = elim result.outcome [
  | TaskHandlerOutcome.completed ↦ (false, "")
  | TaskHandlerOutcome.duplicate_reused ↦ (false, "")
  | TaskHandlerOutcome.retryable_failure ↦ (true, text_or result.error_class "retryable_failure")
  | TaskHandlerOutcome.permanent_failure ↦ (false, text_or result.error_class "permanent_failure")
]
