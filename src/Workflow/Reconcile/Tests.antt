-- ===== src/Workflow/Reconcile/Tests.antt =====
-- Scans of workflow/reconcile.py on small inputs.
use agentic_cartoon_demo.Base.{
  ◌≡◌, refl, true, false, ◌+◌, ◌-◌, [], ◌∷◌, none, some, sort, insert_sorted,
}
use agentic_cartoon_demo.Config.{TaskType, task_type_eq}
use agentic_cartoon_demo.Exceptions.{ok}
use agentic_cartoon_demo.Persistence.Types.{TaskRecord, TaskStatus, WorkflowRecord}
use agentic_cartoon_demo.Persistence.Session.{Db, Environment}
use agentic_cartoon_demo.Persistence.WorkflowRepo.{postgres, workflow_fake}
use agentic_cartoon_demo.Persistence.Listings.{
  list_tasks_for_workflow, list_workflows_for_reconciliation, list_unpublished_outbox_for_workflow,
}
use agentic_cartoon_demo.Persistence.OutboxRepo.{fetch_unpublished}
use agentic_cartoon_demo.Workflow.Types.{WorkflowState}
use agentic_cartoon_demo.Workflow.Executor.{recreate_expected_outbox}
use agentic_cartoon_demo.Workflow.Invariants.Rows.{row_of}
use agentic_cartoon_demo.Workflow.Tests.{program, config, empty_db, numbered, row_in}
use agentic_cartoon_demo.Workflow.Reconcile.{
  Scanner, ReconciliationCandidate, RepairPattern, rp001, rp002, rp003, exceeds, threshold_for,
  latest_task_of_type, rp001_expected_task, dedupe_candidates,
}
use agentic_cartoon_demo.Workflow.Reconcile.Collect.{rp001_candidate, collect_candidates}
use agentic_cartoon_demo.Workflow.Reconcile.Repair.{
  ReconciliationResult, in_transaction, scan_and_repair,
}
use agentic_cartoon_demo.Workflow.Reconcile.Dedupe.{IsBest, dedupe_candidates-IsBest}
use agentic_cartoon_demo.Workflow.Reconcile.Stuck.{evaluation_of, generating-is_stuck}
use agentic_cartoon_demo.Workflow.Reconcile.Counts.{IsTallied, scan_and_repair-IsTallied}
use agentic_cartoon_demo.Workflow.Reconcile.Postgres.{IsIdle, postgres-IsIdle}
use agentic_cartoon_demo.Workflow.Reconcile.Failing.{IsSpared, scan_and_repair-IsSpared}

-- Two hours after the start.
abbrev late : Environment
late = record numbered { utcnow = λ n. 7200000000 + n }

abbrev scanner : Scanner
scanner = record {
  stuck_overrides = λ _. none;
  max_attempts = λ _. 3;
  transient_states =
      WorkflowState.created ∷ WorkflowState.collecting ∷ WorkflowState.collected
      ∷ WorkflowState.selecting_topic ∷ WorkflowState.topic_selected
      ∷ WorkflowState.generating_scenario ∷ WorkflowState.scenario_generated
      ∷ WorkflowState.reviewing ∷ WorkflowState.revision_required ∷ WorkflowState.review_passed
      ∷ [];
}

abbrev running : TaskType → TaskRecord
running type = record {
  task_id = "t";
  workflow_id = "wf";
  task_type = type;
  attempt = 1;
  status = TaskStatus.in_progress;
  payload_reference = record { ref_id = "t"; ref_kind = "task_payload" };
  idempotency_key = "key";
  created_at = 0;
  updated_at = 0;
  completed_at = none;
  failure_reason = none;
}

-- A workflow whose task is in progress.
abbrev busy : WorkflowState → TaskType → Db
busy state type = record empty_db {
  workflows = row_in state ∷ [];
  tasks = running type ∷ [];
  environment = late;
  requests = 9;
  outbox = [];
}

abbrev generating : Db
generating = busy WorkflowState.generating_scenario TaskType.generate_scenario

abbrev failed_row : WorkflowRecord
failed_row = record (row_in WorkflowState.generating_scenario) {
  state = WorkflowState.failed;
  state_version = 5;
  updated_at = 7200000014;
  failure_reason = some "stuck_state_timeout";
}

abbrev one_repair : RepairPattern → ReconciliationResult
one_repair pattern_id = record {
  scanned_count = 1;
  repaired_count = 1;
  reports =
      record { workflow_id = "wf"; repair_action = pattern_id; repaired = true; detail = none }
      ∷ [];
}

-- The definitions that a scan computes with.
unfoldable scan : Unit {0}
unfolding program sort insert_sorted list_tasks_for_workflow list_workflows_for_reconciliation
    list_unpublished_outbox_for_workflow fetch_unpublished recreate_expected_outbox
    collect_candidates latest_task_of_type rp001_expected_task scan_and_repair task_type_eq
    in_transaction
scan = tt

-- The task in progress does not save the workflow.
generating_scan :
    (scan_and_repair workflow_fake config scanner 10 generating).0 ≡ ok (one_repair rp003)
unfolding scan
generating_scan = refl

generating_row :
    row_of "wf" (scan_and_repair workflow_fake config scanner 10 generating).1 ≡ some failed_row
unfolding scan
generating_row = refl

abbrev collecting : Db
collecting = busy WorkflowState.collecting TaskType.collect

-- A second task is written beside the one in progress.
collecting_scan :
    (scan_and_repair workflow_fake config scanner 10 collecting).0 ≡ ok (one_repair rp001)
unfolding scan
collecting_scan = refl

abbrev candidate : RepairPattern → ReconciliationCandidate
candidate pattern_id = record (rp001_candidate (row_in WorkflowState.collecting) TaskType.collect) {
  pattern_id = pattern_id;
}

dedupe_example :
    IsBest
      (candidate rp001 ∷ candidate rp003 ∷ [])
      (dedupe_candidates (candidate rp001 ∷ candidate rp003 ∷ []))
dedupe_example = dedupe_candidates-IsBest (candidate rp001 ∷ candidate rp003 ∷ [])

dedupe_result :
    dedupe_candidates (candidate rp002 ∷ candidate rp003 ∷ candidate rp001 ∷ [])
    ≡ candidate rp003 ∷ []
unfolding dedupe_candidates
dedupe_result = refl

IsTallied-example : IsTallied workflow_fake config scanner 10 (one_repair rp003)
unfolding scan
IsTallied-example =
    scan_and_repair-IsTallied workflow_fake config scanner 10 generating
      {after = (scan_and_repair workflow_fake config scanner 10 generating).1} refl

IsIdle-example :
    IsIdle generating
      (scan_and_repair postgres config scanner 10 generating).0
      (scan_and_repair postgres config scanner 10 generating).1
IsIdle-example = postgres-IsIdle config scanner 10 generating refl

spared_example :
    IsSpared
      (row_of "wf" generating)
      (row_of "wf" (scan_and_repair workflow_fake config scanner 10 generating).1)
spared_example = scan_and_repair-IsSpared config "wf" workflow_fake scanner 10 generating refl

stuck_example :
    ((evaluation_of scanner
        (row_in WorkflowState.generating_scenario)
        (running TaskType.generate_scenario ∷ [])
        []
        7200000000).in_flight_task
      ≡ false)
    × ((evaluation_of scanner
          (row_in WorkflowState.generating_scenario)
          (running TaskType.generate_scenario ∷ [])
          []
          7200000000).is_stuck
        ≡ exceeds (7200000000 - 0) (threshold_for scanner WorkflowState.generating_scenario))
stuck_example =
    generating-is_stuck scanner (row_in WorkflowState.generating_scenario)
      (running TaskType.generate_scenario ∷ []) [] 7200000000 refl
