-- ===== src/Workflow/Executor.antt =====
-- workflow/executor.py: the writes of one workflow mutation, in their order.
pub mod Effects
use agentic_cartoon_demo.Base.{ℕ, Bool, true, false, String, Option, none, some}
use agentic_cartoon_demo.Config.{TaskType}
use agentic_cartoon_demo.Exceptions.{
  Exception, Result, ok, err, persistence_conflict, persistence_not_found, workflow_conflict,
  workflow_not_found,
}
use agentic_cartoon_demo.Persistence.Types.{WorkflowRecord, WorkflowTransitionRecord}
use agentic_cartoon_demo.Persistence.Session.{Db, Action, pure, raise, and_then, ◌>>=◌, ◌>>◌}
use agentic_cartoon_demo.Persistence.WorkflowRepo.{
  Repo, call_update_workflow_state, append_transition, create_task,
}
use agentic_cartoon_demo.Persistence.OutboxRepo.{insert}
use agentic_cartoon_demo.Workflow.Types.{WorkflowState, ApprovalAction}
use agentic_cartoon_demo.Workflow.TransitionTable.{TransitionDecision, ApprovalDecision}
use agentic_cartoon_demo.Workflow.OutboxBuilder.{
  OutboxTaskSpec, OutboxBuildResult, resolve_for_task, build,
}

-- workflow/types.py; `to_domain_transition` of records.py copies the persisted record field by field
-- into one with the same fields, so it is the identity here.
pub record TransitionResult : Type 0 where
  pub workflow_id : String
  pub from_state : WorkflowState
  pub to_state : WorkflowState
  pub state_version : ℕ
  pub transition_id : String
  pub transition : WorkflowTransitionRecord
  pub outbox_written : Bool
  pub enqueued_task : Option OutboxTaskSpec

pub record ApprovalActionResult : Type 0 where
  pub workflow_id : String
  pub action : ApprovalAction
  pub from_state : WorkflowState
  pub to_state : WorkflowState
  pub state_version : ℕ
  pub transition_id : String
  pub transition : WorkflowTransitionRecord
  pub enqueued_task : Option OutboxTaskSpec

pub record InitiateWorkflowResult : Type 0 where
  pub workflow_id : String
  pub state : WorkflowState
  pub state_version : ℕ
  pub transition : WorkflowTransitionRecord
  pub enqueued_task : OutboxTaskSpec

-- The two `except` clauses round every update.
abbrev pub translate : String → Exception → Exception
translate workflow_id persistence_conflict = workflow_conflict workflow_id
translate workflow_id persistence_not_found = workflow_not_found workflow_id
translate workflow_id e = e

abbrev pub relabelled {ℓ} : {A : Type ℓ} → String → Result A → Result A
relabelled workflow_id (ok a) = ok a
relabelled workflow_id (err e) = err (translate workflow_id e)

abbrev pub translated {ℓ} : {A : Type ℓ} → String → Action A → Action A
translated workflow_id m db = let (r, after) = m db in (relabelled workflow_id r, after)

-- `if outbox is not None:` the task, its payload and the outbox row.
unfoldable pub enqueue : Option OutboxBuildResult → Action (Option OutboxTaskSpec)
enqueue none = pure none
enqueue (some outbox) = do
  _ ← create_task outbox.task_record (some outbox.payload_json)
  _ ← insert outbox.outbox_insert
  pure (some outbox.task_spec)

abbrev pub is_written : Option OutboxTaskSpec → Bool
is_written none = false
is_written (some _) = true

-- The row, the audit record and the task that were written.
abbrev pub Written : Type 0
Written = WorkflowRecord × WorkflowTransitionRecord × Option OutboxTaskSpec

-- The sequence of writes that the three methods have in common.
unfoldable pub perform :
    Repo
    → WorkflowRecord
    → WorkflowState
    → Option String
    → Option ℕ
    → WorkflowTransitionRecord
    → Option OutboxBuildResult
    → Action Written
perform repo workflow new_state failure_reason revision_count transition outbox = do
  updated ← translated workflow.workflow_id (
      call_update_workflow_state repo workflow.workflow_id workflow.state_version new_state
        failure_reason revision_count)
  persisted ← append_transition transition
  enqueued ← enqueue outbox
  pure (updated, persisted, enqueued)

-- The results that the three methods build from what was written.
abbrev pub transition_result : WorkflowRecord → TransitionDecision → Written → TransitionResult
transition_result workflow decision (updated, persisted, enqueued) = record {
  workflow_id = workflow.workflow_id;
  from_state = decision.from_state;
  to_state = decision.to_state;
  state_version = updated.state_version;
  transition_id = persisted.transition_id;
  transition = persisted;
  outbox_written = is_written enqueued;
  enqueued_task = enqueued;
}

abbrev pub approval_result : WorkflowRecord → ApprovalDecision → Written → ApprovalActionResult
approval_result workflow decision (updated, persisted, enqueued) = record {
  workflow_id = workflow.workflow_id;
  action = decision.action;
  from_state = decision.from_state;
  to_state = decision.to_state;
  state_version = updated.state_version;
  transition_id = persisted.transition_id;
  transition = persisted;
  enqueued_task = enqueued;
}

abbrev pub initiate_result : WorkflowRecord → OutboxBuildResult → Written → InitiateWorkflowResult
initiate_result workflow outbox (updated, persisted, enqueued) = record {
  workflow_id = workflow.workflow_id;
  state = WorkflowState.collecting;
  state_version = updated.state_version;
  transition = persisted;
  enqueued_task = outbox.task_spec;
}

module _ (repo : Repo) where
  unfoldable pub execute_transition :
      WorkflowRecord
      → TransitionDecision
      → WorkflowTransitionRecord
      → Option OutboxBuildResult
      → Option ℕ
      → Action (WorkflowRecord × TransitionResult)
  execute_transition workflow decision transition outbox revision_count = do
    written ←
        perform repo workflow decision.to_state decision.set_failure_reason revision_count
          transition outbox
    pure (written.0, transition_result workflow decision written)

  unfoldable pub execute_approval :
      WorkflowRecord
      → ApprovalDecision
      → WorkflowTransitionRecord
      → Option OutboxBuildResult
      → Action (WorkflowRecord × ApprovalActionResult)
  execute_approval workflow decision transition outbox = do
    written ← perform repo workflow decision.to_state none none transition outbox
    pure (written.0, approval_result workflow decision written)

  unfoldable pub execute_initiate :
      WorkflowRecord → WorkflowTransitionRecord → OutboxBuildResult → Action InitiateWorkflowResult
  execute_initiate workflow collecting_transition outbox = do
    written ←
        perform repo workflow WorkflowState.collecting none none collecting_transition (some outbox)
    pure (initiate_result workflow outbox written)

-- `increment=task_type == TaskType.GENERATE_SCENARIO`
abbrev pub is_generate : TaskType → Bool
is_generate TaskType.generate_scenario = true
is_generate _ = false

unfoldable pub recreate_expected_outbox : WorkflowRecord → TaskType → ℕ → Action OutboxBuildResult
recreate_expected_outbox workflow task_type attempt = do
  logical_version ← resolve_for_task workflow.workflow_id task_type (is_generate task_type)
  outbox ← build workflow task_type logical_version attempt
  _ ← enqueue (some outbox)
  pure outbox
