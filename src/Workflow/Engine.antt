-- ===== src/Workflow/Engine.antt =====
-- workflow/engine.py: the authority over the state machine. Telemetry is left out.
pub mod Inversion
pub mod Outcomes
pub mod Approval
pub mod Initiate
pub mod Refusals
pub mod Progress
pub mod Frame
pub mod Completion
pub mod Revision
pub mod Effects
use agentic_cartoon_demo.Base.{
  ℕ, ◌+◌, Bool, true, false, not, ◌||◌, String, ◌+str+◌, Option, none, some, if◌then◌else◌, is_some,
  or_else, ◌=str=◌, strip,
}
use agentic_cartoon_demo.Config.{TaskType, WorkflowConfig}
use agentic_cartoon_demo.Exceptions.{
  Exception, Result, ok, err, workflow_not_found, workflow_conflict, workflow_terminal,
  invalid_transition, invalid_approval, value_error,
}
use agentic_cartoon_demo.Persistence.Types.{WorkflowRecord, WorkflowTransitionRecord}
use agentic_cartoon_demo.Persistence.Session.{
  Db, Action, pure, raise, and_then, ◌>>=◌, ◌>>◌, raise_unless, now, new_uuid, require_active,
}
use agentic_cartoon_demo.Persistence.WorkflowRepo.{Repo, get_workflow, create_workflow}
use agentic_cartoon_demo.Workflow.Types.{
  WorkflowState, TransitionSignal, ApprovalAction, state_eq, is_terminal, approval_value,
}
use agentic_cartoon_demo.Workflow.TransitionTable.{
  TransitionDecision, ApprovalDecision, lookup, lookup_approval,
}
use agentic_cartoon_demo.Workflow.OutboxBuilder.{OutboxBuildResult, build, build_for_decision}
use agentic_cartoon_demo.Workflow.Executor.{
  TransitionResult, ApprovalActionResult, InitiateWorkflowResult, execute_transition,
  execute_approval, execute_initiate,
}

-- workflow/types.py
pub record InitiateWorkflowRequest : Type 0 where
  pub workflow_id : Option String
  pub actor : Option String

pub record TransitionRequest : Type 0 where
  pub workflow_id : String
  pub expected_state : WorkflowState
  pub signal : TransitionSignal
  pub reason : String
  pub actor : Option String

-- `_build_transition`
unfoldable pub build_transition :
    String
    → WorkflowState
    → WorkflowState
    → String
    → Option String
    → Action WorkflowTransitionRecord
build_transition workflow_id from_state to_state reason actor = do
  t ← now
  transition_id ← new_uuid
  pure (record {
    transition_id = transition_id;
    workflow_id = workflow_id;
    from_state = from_state;
    to_state = to_state;
    reason = reason;
    occurred_at = t;
    actor = actor;
  })

-- `workflow is None` raises WorkflowNotFoundError.
abbrev pub found_or_raise : String → Option WorkflowRecord → Action WorkflowRecord
found_or_raise workflow_id none = raise (workflow_not_found workflow_id)
found_or_raise workflow_id (some w) = pure w

-- The `try` round the lookup: its error is raised again with the workflow's identifier.
abbrev pub relabel :
    String
    → WorkflowState
    → TransitionSignal
    → Result TransitionDecision
    → Action TransitionDecision
relabel workflow_id state signal (ok d) = pure d
relabel workflow_id state signal (err e) = raise (invalid_transition workflow_id state signal)

-- The caller's reason stands for the failure reason of the two signals that report a failure.
abbrev pub failure_reason_of : TransitionSignal → String → Option String → Option String
failure_reason_of TransitionSignal.unrecoverable_error reason r = or_else r (some reason)
failure_reason_of TransitionSignal.retries_exhausted reason r = or_else r (some reason)
failure_reason_of _ reason r = r

abbrev pub with_reason : TransitionRequest → TransitionDecision → TransitionDecision
with_reason request d = record d {
  set_failure_reason = failure_reason_of request.signal request.reason d.set_failure_reason;
}

abbrev pub new_revision : WorkflowRecord → TransitionDecision → Option ℕ
new_revision workflow d =
    if d.increment_revision_count then some (workflow.revision_count + 1) else none

module _ (repo : Repo) (config : WorkflowConfig) where
  -- What `apply_transition` does from the decision on.
  unfoldable pub carry_out :
      WorkflowRecord → TransitionRequest → TransitionDecision → Action TransitionResult
  unfolding build_transition
  carry_out workflow request decision = do
    outbox ←
        build_for_decision workflow decision.outbox_task_type decision.increment_logical_version
    transition ←
        build_transition request.workflow_id workflow.state decision.to_state request.reason
          request.actor
    result ←
        execute_transition repo workflow decision transition outbox (new_revision workflow decision)
    pure result.1

  -- What `apply_transition` does with the row that it found.
  unfoldable pub move_workflow : TransitionRequest → WorkflowRecord → Action TransitionResult
  unfolding carry_out
  move_workflow request workflow = do
    raise_unless (state_eq workflow.state request.expected_state)
        (workflow_conflict request.workflow_id)
    raise_unless (not (is_terminal workflow.state))
        (invalid_transition request.workflow_id workflow.state request.signal)
    decision ←
        relabel request.workflow_id workflow.state request.signal (
          lookup workflow.state request.signal workflow.revision_count
            config.max_scenario_revisions)
    carry_out workflow request (with_reason request decision)

  -- `DefaultWorkflowEngine.apply_transition`
  unfoldable pub apply_transition : TransitionRequest → Action TransitionResult
  unfolding move_workflow
  apply_transition request = do
    require_active
    found ← get_workflow request.workflow_id
    workflow ← found_or_raise request.workflow_id found
    move_workflow request workflow

-- The checks of `apply_approval_action` on the state.
abbrev pub check_approval : String → ApprovalAction → WorkflowState → Action (Unit {0})
check_approval workflow_id action state =
    if state_eq state WorkflowState.awaiting_human_approval
    then pure tt
    else if is_terminal state
    then raise (workflow_terminal workflow_id state)
    else raise (invalid_approval workflow_id action state)

module _ (repo : Repo) where
  -- What `apply_approval_action` does from the decision on.
  unfoldable pub approve_workflow :
      String → Option String → WorkflowRecord → ApprovalDecision → Action ApprovalActionResult
  unfolding build_transition
  approve_workflow workflow_id actor workflow decision = do
    outbox ←
        build_for_decision workflow decision.outbox_task_type decision.increment_logical_version
    transition ←
        build_transition workflow_id workflow.state decision.to_state
          ("approval_" +str+ approval_value decision.action) actor
    result ← execute_approval repo workflow decision transition outbox
    pure result.1

  -- `DefaultWorkflowEngine.apply_approval_action`
  unfoldable pub apply_approval_action :
      String → ApprovalAction → Option String → Action ApprovalActionResult
  unfolding approve_workflow
  apply_approval_action workflow_id action actor = do
    require_active
    found ← get_workflow workflow_id
    workflow ← found_or_raise workflow_id found
    check_approval workflow_id action workflow.state
    approve_workflow workflow_id actor workflow (lookup_approval action)

-- `WorkflowIdAllocator.allocate` of ids.py.
unfoldable pub allocate : Option InitiateWorkflowRequest → Action String
unfolding strip
allocate none = new_uuid
allocate (some request) = elim request.workflow_id [
  | none ↦ new_uuid
  | some given ↦ if strip given =str= "" then raise value_error else pure (strip given)
]

abbrev pub actor_of : Option InitiateWorkflowRequest → Option String
actor_of none = none
actor_of (some request) = request.actor

module _ (repo : Repo) where
  -- What `initiate_workflow` does from the new row on.
  unfoldable pub start_collecting :
      String → Option String → WorkflowRecord → Action InitiateWorkflowResult
  unfolding build_transition
  start_collecting workflow_id actor workflow = do
    outbox ← build workflow TaskType.collect 1 1
    transition ←
        build_transition workflow_id WorkflowState.created WorkflowState.collecting
          "workflow_initiated" actor
    execute_initiate repo workflow transition outbox

  -- `DefaultWorkflowEngine.initiate_workflow`
  unfoldable pub initiate_workflow : Option InitiateWorkflowRequest → Action InitiateWorkflowResult
  unfolding start_collecting allocate
  initiate_workflow request = do
    require_active
    workflow_id ← allocate request
    existing ← get_workflow workflow_id
    raise_unless (not (is_some existing)) (workflow_conflict workflow_id)
    workflow ← create_workflow workflow_id WorkflowState.created
    start_collecting workflow_id (actor_of request) workflow
