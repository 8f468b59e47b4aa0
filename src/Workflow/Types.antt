-- ===== src/Workflow/Types.antt =====
-- workflow/types.py and workflow/constants.py: states, signals, actions and the sets of states.
-- persistence/types.py declares the same states once more. `WorkflowState(state.value)`, which
-- converts between the two by the members' values, is the identity here.
use mathlib.Core.Bool.{decide, decide_iff}
use agentic_cartoon_demo.Base.{◌≡◌, ◌↔◌, Bool, true, false, not, ◌&&◌, String}

pub data WorkflowState : Type 0 where
  created collecting collected selecting_topic no_suitable_topic topic_selected : WorkflowState
  generating_scenario scenario_generated reviewing revision_required review_passed : WorkflowState
  awaiting_human_approval approved rejected review_failed failed failed_permanently : WorkflowState

pub data ApprovalAction : Type 0 where
  approve reject request_regeneration : ApprovalAction

pub data TransitionSignal : Type 0 where
  stage_completed no_suitable_topic critic_revise critic_pass : TransitionSignal
  unrecoverable_error retries_exhausted reconciliation_repair : TransitionSignal

unfoldable pub WorkflowState-discrete : Discrete WorkflowState
WorkflowState-discrete = hlevel

unfoldable pub state_eq : WorkflowState → WorkflowState → Bool
unfolding decide WorkflowState-discrete
state_eq a b = decide (WorkflowState-discrete a b)

pub state_eq_iff : (a b : WorkflowState) → (state_eq a b ≡ true) ↔ (a ≡ b)
unfolding state_eq
state_eq_iff a b = decide_iff (WorkflowState-discrete a b)

unfoldable pub TransitionSignal-discrete : Discrete TransitionSignal
TransitionSignal-discrete = hlevel

unfoldable pub signal_eq : TransitionSignal → TransitionSignal → Bool
unfolding decide TransitionSignal-discrete
signal_eq a b = decide (TransitionSignal-discrete a b)

-- `TERMINAL_STATES` of constants.py, `TERMINAL_WORKFLOW_STATES` of types.py.
abbrev pub is_terminal : WorkflowState → Bool
is_terminal WorkflowState.no_suitable_topic = true
is_terminal WorkflowState.approved = true
is_terminal WorkflowState.rejected = true
is_terminal WorkflowState.review_failed = true
is_terminal WorkflowState.failed = true
is_terminal WorkflowState.failed_permanently = true
is_terminal _ = false

-- `PAUSE_STATES`
abbrev pub is_pause : WorkflowState → Bool
is_pause WorkflowState.awaiting_human_approval = true
is_pause _ = false

-- `TRANSIENT_STATES`
abbrev pub is_transient : WorkflowState → Bool
is_transient s = not (is_terminal s) && not (is_pause s)

abbrev pub approval_value : ApprovalAction → String
approval_value approve = "APPROVE"
approval_value reject = "REJECT"
approval_value request_regeneration = "REQUEST_REGENERATION"
