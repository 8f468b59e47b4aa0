-- ===== src/Workflow/Tests.antt =====
-- Runs of the engine on small inputs.
use agentic_cartoon_demo.Base.{
  ◌≡◌, refl, Any, ◌↔◌, inr, arith, true, false, ◌+str+◌, show_nat, List, [], ◌∷◌, ◌++◌, find,
  replace, none, some,
}
use agentic_cartoon_demo.Config.{WorkflowConfig}
use agentic_cartoon_demo.Exceptions.{ok, err, type_error, workflow_conflict, workflow_terminal}
use agentic_cartoon_demo.Persistence.Session.{Db, Environment, transaction}
use agentic_cartoon_demo.Persistence.WorkflowRepo.{
  postgres, workflow_fake, get_workflow, create_workflow, call_update_workflow_state,
  append_transition, create_task, write_task, insert_payload, insert_task,
}
use agentic_cartoon_demo.Persistence.OutboxRepo
use agentic_cartoon_demo.Persistence.ArtifactRepo.{get_active_artifact}
use agentic_cartoon_demo.Workflow.Types.{WorkflowState, TransitionSignal, ApprovalAction, state_eq}
use agentic_cartoon_demo.Workflow.TransitionTable.{lookup, lookup_approval}
use agentic_cartoon_demo.Workflow.OutboxBuilder.{build, build_for_decision, format_idempotency_key}
use agentic_cartoon_demo.Workflow.Executor.{
  execute_transition, execute_approval, execute_initiate, perform, enqueue,
}
use agentic_cartoon_demo.Workflow.TransitionTable.{TransitionDecision}
use agentic_cartoon_demo.Workflow.TransitionTable.Ahead.{Trail, reaches_approval}
use agentic_cartoon_demo.Workflow.TransitionTable.Graph.{Edge, lookup_iff}
use agentic_cartoon_demo.Workflow.Engine.Completion.{Completed, apply_transition-Completed}
use agentic_cartoon_demo.Workflow.Engine.Refusals.{
  conflict, finished, apply_transition-refused, apply_approval_action-refused,
}
use agentic_cartoon_demo.Workflow.Engine.Revision.{critic_revise-type_error}
use agentic_cartoon_demo.Workflow.Invariants.Audit.{IsAudited, absent, run_all-IsAudited}
use agentic_cartoon_demo.Workflow.Invariants.Gate.{
  IsGuarded, Approval, run_all-IsGuarded, run_all-approved,
}
use agentic_cartoon_demo.Workflow.Invariants.Frozen.{run_all-terminal}
use agentic_cartoon_demo.Workflow.Invariants.Outbox.{
  IsComplete, IsEnqueued, run_all-IsComplete, run_all-IsEnqueued,
}
use agentic_cartoon_demo.Workflow.Invariants.Revisions.{IsCapped, run_all-IsCapped}
use agentic_cartoon_demo.Workflow.Commands.{Command, initiate, transition, approval, run, run_all}
use agentic_cartoon_demo.Workflow.Invariants.Rows.{row_of}
use agentic_cartoon_demo.Persistence.Types.{WorkflowRecord}
use agentic_cartoon_demo.Workflow.Engine.{
  TransitionRequest, initiate_workflow, apply_transition, apply_approval_action,
}

abbrev pub numbered : Environment
numbered = record { uuid4 = λ n. "id-" +str+ show_nat n; utcnow = λ n. n }

abbrev pub empty_db : Db
empty_db = record {
  workflows = [];
  workflow_transitions = [];
  tasks = [];
  task_payloads = [];
  artifacts = [];
  artifact_content = [];
  ai_invocations = [];
  outbox = [];
  idempotency = [];
  task_leases = [];
  in_transaction = false;
  environment = numbered;
  requests = 0;
}

abbrev pub config : WorkflowConfig
config = record { max_scenario_revisions = 2 }

-- The definitions that a run computes with.
unfoldable pub program : Unit {0}
unfolding show_nat get_workflow create_workflow call_update_workflow_state append_transition
    create_task write_task insert_payload insert_task perform enqueue OutboxRepo.insert
    get_active_artifact state_eq lookup lookup_approval build build_for_decision
    format_idempotency_key execute_transition execute_approval execute_initiate initiate_workflow
    apply_transition apply_approval_action transaction run run_all find replace
program = tt

abbrev pub move : WorkflowState → TransitionSignal → TransitionRequest
move state signal = record {
  workflow_id = "wf";
  expected_state = state;
  signal = signal;
  reason = "test";
  actor = none;
}

abbrev pub begin_wf : Command
begin_wf = initiate (some (record { workflow_id = some " wf "; actor = none }))

-- From the start to the pause for approval.
abbrev pub to_approval : List Command
to_approval =
    begin_wf
    ∷ transition (move WorkflowState.collecting TransitionSignal.stage_completed)
    ∷ transition (move WorkflowState.collected TransitionSignal.stage_completed)
    ∷ transition (move WorkflowState.selecting_topic TransitionSignal.stage_completed)
    ∷ transition (move WorkflowState.topic_selected TransitionSignal.stage_completed)
    ∷ transition (move WorkflowState.generating_scenario TransitionSignal.stage_completed)
    ∷ transition (move WorkflowState.scenario_generated TransitionSignal.stage_completed)
    ∷ transition (move WorkflowState.reviewing TransitionSignal.critic_pass)
    ∷ transition (move WorkflowState.review_passed TransitionSignal.stage_completed)
    ∷ []

abbrev pub journey : List Command
journey = to_approval ++ approval "wf" ApprovalAction.approve none ∷ []

abbrev pub row_at_end : WorkflowRecord
row_at_end = record {
  workflow_id = "wf";
  state = WorkflowState.approved;
  state_version = 11;
  created_at = 0;
  updated_at = 46;
  revision_count = 0;
  failure_reason = none;
}

journey_row : row_of "wf" (run_all workflow_fake config journey empty_db) ≡ some row_at_end
unfolding program
journey_row = refl

audit_example : IsAudited "wf" (run_all workflow_fake config journey empty_db)
unfolding find
audit_example = run_all-IsAudited config "wf" workflow_fake journey empty_db (absent refl)

guard_example : IsGuarded (run_all workflow_fake config journey empty_db)
guard_example = run_all-IsGuarded workflow_fake config journey empty_db tt

approved_example :
    Any (Approval "wf") (run_all workflow_fake config journey empty_db).workflow_transitions
unfolding find
approved_example =
    run_all-approved workflow_fake config journey empty_db "wf" row_at_end (absent refl) tt
      journey_row refl

-- Calls that come too late.
abbrev late : List Command
late =
    begin_wf
    ∷ transition (move WorkflowState.approved TransitionSignal.unrecoverable_error)
    ∷ approval "wf" ApprovalAction.reject none
    ∷ []

terminal_example :
    row_of "wf" (run_all workflow_fake config late (run_all workflow_fake config journey empty_db))
    ≡ some row_at_end
terminal_example =
    run_all-terminal config "wf" row_at_end workflow_fake late
      (run_all workflow_fake config journey empty_db) refl journey_row

IsCapped-example : IsCapped config "wf" (run_all workflow_fake config journey empty_db)
unfolding find
IsCapped-example = run_all-IsCapped config "wf" workflow_fake journey empty_db tt

IsComplete-example : IsComplete (run_all postgres config journey empty_db)
IsComplete-example = run_all-IsComplete postgres config journey empty_db tt

IsEnqueued-example : IsEnqueued (run_all postgres config journey empty_db)
IsEnqueued-example = run_all-IsEnqueued postgres config journey empty_db tt

-- One workflow in a given state, inside a transaction.
abbrev pub row_in : WorkflowState → WorkflowRecord
row_in state = record {
  workflow_id = "wf";
  state = state;
  state_version = 4;
  created_at = 0;
  updated_at = 0;
  revision_count = 1;
  failure_reason = none;
}

abbrev pub db_in : WorkflowState → Db
db_in state = record empty_db { workflows = row_in state ∷ []; in_transaction = true; requests = 9 }

completed_example :
    Completed postgres config
      (move WorkflowState.collecting TransitionSignal.stage_completed)
      (row_in WorkflowState.collecting)
      WorkflowState.collected
      (db_in WorkflowState.collecting)
unfolding find
completed_example =
    apply_transition-Completed postgres config
      (move WorkflowState.collecting TransitionSignal.stage_completed)
      (db_in WorkflowState.collecting) (row_in WorkflowState.collecting) WorkflowState.collected
      refl
      (record {
        transition_ids = λ n later. refl;
        payload_ids = λ n later. refl;
        task_ids = λ n later. refl;
        outbox_ids = λ n later. refl;
      })
      refl refl Edge.collect (inr (λ e. cc))

refused_example :
    apply_transition postgres config
      (move WorkflowState.collected TransitionSignal.stage_completed)
      (db_in WorkflowState.collecting)
    ≡ (err (workflow_conflict "wf"), db_in WorkflowState.collecting)
unfolding find
refused_example =
    apply_transition-refused postgres config
      (move WorkflowState.collected TransitionSignal.stage_completed)
      (db_in WorkflowState.collecting) (some (row_in WorkflowState.collecting))
      (workflow_conflict "wf") refl refl (conflict (row_in WorkflowState.collecting) (λ e. cc))

refused_approval_example :
    apply_approval_action postgres "wf" ApprovalAction.approve none (db_in WorkflowState.rejected)
    ≡ (err (workflow_terminal "wf" WorkflowState.rejected), db_in WorkflowState.rejected)
unfolding find
refused_approval_example =
    apply_approval_action-refused postgres "wf" ApprovalAction.approve none
      (db_in WorkflowState.rejected) (some (row_in WorkflowState.rejected))
      (workflow_terminal "wf" WorkflowState.rejected) refl refl
      (finished (row_in WorkflowState.rejected) refl)

type_error_example :
    (apply_transition postgres config
      (move WorkflowState.reviewing TransitionSignal.critic_revise)
      (db_in WorkflowState.reviewing)).0
    ≡ err type_error
unfolding find
type_error_example =
    critic_revise-type_error config (move WorkflowState.reviewing TransitionSignal.critic_revise)
      (db_in WorkflowState.reviewing) (row_in WorkflowState.reviewing) refl refl refl refl refl
      (omega arith)

lookup_iff_example :
    ((d : TransitionDecision) × (lookup WorkflowState.reviewing TransitionSignal.critic_revise 2 2
        ≡ ok d)
      × (d.to_state ≡ WorkflowState.review_failed))
    ↔ Edge 2 2 WorkflowState.reviewing TransitionSignal.critic_revise WorkflowState.review_failed
lookup_iff_example =
    lookup_iff WorkflowState.reviewing TransitionSignal.critic_revise 2 2
      WorkflowState.review_failed

reaches_example : Trail 2 2 WorkflowState.collecting WorkflowState.awaiting_human_approval
reaches_example = reaches_approval 2 2 WorkflowState.collecting refl (λ e. cc)
