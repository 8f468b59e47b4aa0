-- ===== src/Workflow/TransitionTable/Repairs.antt =====
-- workflow/transition_table.py: the signal RECONCILIATION_REPAIR.
use agentic_cartoon_demo.Base.{ℕ, ◌≡◌, true, some, arith}
use agentic_cartoon_demo.Exceptions.{ok}
use agentic_cartoon_demo.Workflow.Types.{WorkflowState, TransitionSignal, is_transient}
use agentic_cartoon_demo.Workflow.TransitionTable.{TransitionDecision, lookup}

-- What is decided for the signal.
pub record IsTimeout (s : WorkflowState) (d : TransitionDecision) : Type 0 where
  pub transient : is_transient s ≡ true
  pub failed_ : d.to_state ≡ WorkflowState.failed
  pub reason_ : d.set_failure_reason ≡ some "stuck_state_timeout"

pub lookup-IsTimeout :
    (s : WorkflowState) (count limit : ℕ) (d : TransitionDecision)
    → lookup s TransitionSignal.reconciliation_repair count limit ≡ ok d
    → IsTimeout s d
unfolding lookup
lookup-IsTimeout WorkflowState.created count limit d h = ground arith
lookup-IsTimeout s count limit d h = ground arith
