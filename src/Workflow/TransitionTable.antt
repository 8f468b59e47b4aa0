-- ===== src/Workflow/TransitionTable.antt =====
-- workflow/transition_table.py: the pure lookup of the next state.
pub mod Ahead
pub mod Graph
pub mod Moves
pub mod Repairs
use agentic_cartoon_demo.Base.{
  ℕ, Bool, true, false, ◌&&◌, Option, none, some, String, if◌then◌else◌, leb,
}
use agentic_cartoon_demo.Config.{TaskType}
use agentic_cartoon_demo.Exceptions.{Result, ok, err, invalid_transition}
use agentic_cartoon_demo.Workflow.Types.{
  WorkflowState, TransitionSignal, ApprovalAction, state_eq, signal_eq, is_terminal, is_pause,
  is_transient,
}

pub record TransitionDecision : Type 0 where
  pub from_state : WorkflowState
  pub to_state : WorkflowState
  pub signal : TransitionSignal
  pub outbox_task_type : Option TaskType
  pub increment_revision_count : Bool
  pub increment_logical_version : Bool
  pub set_failure_reason : Option String

pub record ApprovalDecision : Type 0 where
  pub action : ApprovalAction
  pub from_state : WorkflowState
  pub to_state : WorkflowState
  pub outbox_task_type : Option TaskType
  pub increment_logical_version : Bool

-- `_RowSpec`; the fields that no row of the two matrices sets keep their defaults, False and None.
pub record RowSpec : Type 0 where
  pub to_state : WorkflowState
  pub outbox_task_type : Option TaskType
  pub increment_logical_version : Bool

abbrev row : WorkflowState → Option TaskType → RowSpec
row s t = record { to_state = s; outbox_task_type = t; increment_logical_version = false }

-- `_PRIMARY_MATRIX.get((state, signal))`
unfoldable pub primary_matrix : WorkflowState → TransitionSignal → Option RowSpec
primary_matrix WorkflowState.collecting TransitionSignal.stage_completed =
    some (row WorkflowState.collected (some TaskType.select_topic))
primary_matrix WorkflowState.collected TransitionSignal.stage_completed =
    some (row WorkflowState.selecting_topic none)
primary_matrix WorkflowState.selecting_topic TransitionSignal.stage_completed =
    some (row WorkflowState.topic_selected (some TaskType.generate_scenario))
primary_matrix WorkflowState.selecting_topic TransitionSignal.no_suitable_topic =
    some (row WorkflowState.no_suitable_topic none)
primary_matrix WorkflowState.topic_selected TransitionSignal.stage_completed =
    some (row WorkflowState.generating_scenario none)
primary_matrix WorkflowState.generating_scenario TransitionSignal.stage_completed =
    some (row WorkflowState.scenario_generated (some TaskType.review_scenario))
primary_matrix WorkflowState.scenario_generated TransitionSignal.stage_completed =
    some (row WorkflowState.reviewing none)
primary_matrix WorkflowState.reviewing TransitionSignal.critic_pass =
    some (row WorkflowState.review_passed none)
primary_matrix WorkflowState.revision_required TransitionSignal.stage_completed = some (record {
  to_state = WorkflowState.generating_scenario;
  outbox_task_type = some TaskType.generate_scenario;
  increment_logical_version = true;
})
primary_matrix WorkflowState.review_passed TransitionSignal.stage_completed =
    some (row WorkflowState.awaiting_human_approval none)
primary_matrix _ _ = none

-- `_EXPECTED_OUTBOX_BY_STATE.get(state)`
unfoldable pub expected_outbox_task : WorkflowState → Option TaskType
expected_outbox_task WorkflowState.collecting = some TaskType.collect
expected_outbox_task WorkflowState.collected = some TaskType.select_topic
expected_outbox_task WorkflowState.topic_selected = some TaskType.generate_scenario
expected_outbox_task WorkflowState.scenario_generated = some TaskType.review_scenario
expected_outbox_task _ = none

-- `_APPROVAL_MATRIX[action]`
unfoldable pub approval_matrix : ApprovalAction → RowSpec
approval_matrix ApprovalAction.approve = row WorkflowState.approved none
approval_matrix ApprovalAction.reject = row WorkflowState.rejected none
approval_matrix ApprovalAction.request_regeneration = record {
  to_state = WorkflowState.generating_scenario;
  outbox_task_type = some TaskType.generate_scenario;
  increment_logical_version = true;
}

-- A decision with the defaults of `TransitionDecision`.
abbrev pub decide_to : WorkflowState → WorkflowState → TransitionSignal → TransitionDecision
decide_to from to signal = record {
  from_state = from;
  to_state = to;
  signal = signal;
  outbox_task_type = none;
  increment_revision_count = false;
  increment_logical_version = false;
  set_failure_reason = none;
}

abbrev pub decide_row : WorkflowState → RowSpec → TransitionSignal → TransitionDecision
decide_row from r signal = record (decide_to from r.to_state signal) {
  outbox_task_type = r.outbox_task_type;
  increment_logical_version = r.increment_logical_version;
}

-- The tests after the matrix: the failures that every transient state allows.
lookup_failure : WorkflowState → TransitionSignal → Result TransitionDecision
unfolding signal_eq
lookup_failure s signal =
    if signal_eq signal TransitionSignal.unrecoverable_error && is_transient s
    then ok (decide_to s WorkflowState.failed signal)
    else if signal_eq signal TransitionSignal.retries_exhausted && is_transient s
    then ok (decide_to s WorkflowState.failed_permanently signal)
    else if signal_eq signal TransitionSignal.reconciliation_repair && is_transient s
    then ok (record (decide_to s WorkflowState.failed signal) {
      set_failure_reason = some "stuck_state_timeout";
    })
    else err (invalid_transition "" s signal)

-- `row is not None` and what follows it.
lookup_row : Option RowSpec → WorkflowState → TransitionSignal → Result TransitionDecision
unfolding lookup_failure
lookup_row (some r) s signal = ok (decide_row s r signal)
lookup_row none s signal = lookup_failure s signal

-- `TransitionTable.lookup`
unfoldable pub lookup : WorkflowState → TransitionSignal → ℕ → ℕ → Result TransitionDecision
unfolding lookup_row primary_matrix state_eq signal_eq
lookup s signal revision_count max_scenario_revisions =
    if is_terminal s
    then err (invalid_transition "" s signal)
    else if is_pause s
    then err (invalid_transition "" s signal)
    else if state_eq s WorkflowState.reviewing && signal_eq signal TransitionSignal.critic_revise
    then (if leb max_scenario_revisions revision_count
        then ok (record (decide_to s WorkflowState.review_failed signal) {
          set_failure_reason = some "max_scenario_revisions_exceeded";
        })
        else ok (record (decide_to s WorkflowState.revision_required signal) {
          increment_revision_count = true;
        }))
    else lookup_row (primary_matrix s signal) s signal

-- `TransitionTable.lookup_approval`
unfoldable pub lookup_approval : ApprovalAction → ApprovalDecision
unfolding approval_matrix
lookup_approval action = record {
  action = action;
  from_state = WorkflowState.awaiting_human_approval;
  to_state = (approval_matrix action).to_state;
  outbox_task_type = (approval_matrix action).outbox_task_type;
  increment_logical_version = (approval_matrix action).increment_logical_version;
}
