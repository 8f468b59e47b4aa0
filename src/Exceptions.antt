-- ===== src/Exceptions.antt =====
-- The exceptions that the modelled code raises: persistence/errors.py, workflow/errors.py,
-- worker/errors.py, providers/errors.py, agents/errors.py, collector/errors.py and the built-in ones.
-- An exception is its class with the values that handlers read; the texts of the messages, which no
-- handler reads, are left out.
use agentic_cartoon_demo.Base.{String, Bool}
use agentic_cartoon_demo.Config.{TaskType}
use agentic_cartoon_demo.Workflow.Types.{WorkflowState, TransitionSignal, ApprovalAction}

-- providers/types.py
pub data ProviderErrorClass : Type 0 where
  timeout rate_limit provider_unavailable authentication provider_error : ProviderErrorClass
  network_error schema_validation unknown : ProviderErrorClass

pub data Exception : Type 0 where
  -- persistence/errors.py
  persistence_conflict persistence_not_found persistence_duplicate : Exception
  persistence_transaction persistence_validation persistence_connection : Exception
  -- workflow/errors.py
  workflow_not_found workflow_conflict : (workflow_id : String) → Exception
  invalid_transition :
      (workflow_id : String) (from_state : WorkflowState) (signal : TransitionSignal) → Exception
  invalid_approval :
      (workflow_id : String) (action : ApprovalAction) (current_state : WorkflowState) → Exception
  workflow_terminal : (workflow_id : String) (state : WorkflowState) → Exception
  -- worker/errors.py
  lease_conflict : (task_id : String) → Exception
  task_execution : (workflow_id task_id : String) → TaskType → (retryable : Bool) → Exception
  handler_not_found : TaskType → Exception
  -- providers/errors.py, agents/errors.py and collector/errors.py
  provider_error : ProviderErrorClass → (retryable : Bool) → Exception
  agent_input_validation agent_output_validation agent_configuration : Exception
  collector_error : (code : String) → (retryable : Bool) → Exception
  -- built-in
  runtime_error value_error type_error overflow_error : Exception

pub data Result {ℓ} (A : Type ℓ) : Type ℓ where
  ok : A → Result A
  err : Exception → Result A
