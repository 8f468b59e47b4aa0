-- ===== src/Workflow/Reconcile/Repair.antt =====
-- workflow/reconcile.py: `scan_and_repair`.
use agentic_cartoon_demo.Base.{
  ℕ, ◌+◌, Bool, true, false, ◌&&◌, String, List, [], ◌∷◌, length, Option, none, some, is_some,
  get_or, if◌then◌else◌, eqb,
}
use agentic_cartoon_demo.Config.{TaskType, WorkflowConfig}
use agentic_cartoon_demo.Exceptions.{value_error}
use agentic_cartoon_demo.Persistence.Types.{WorkflowRecord, TaskRecord}
use agentic_cartoon_demo.Persistence.Session.{
  Action, pure, raise, gets, ◌>>=◌, ◌>>◌, now, require_active, is_in_transaction, transaction,
}
use agentic_cartoon_demo.Persistence.WorkflowRepo.{Repo, get_workflow}
use agentic_cartoon_demo.Persistence.Listings.{list_tasks_for_workflow}
use agentic_cartoon_demo.Workflow.Types.{TransitionSignal}
use agentic_cartoon_demo.Workflow.Executor.{recreate_expected_outbox}
use agentic_cartoon_demo.Workflow.Engine.{TransitionRequest, apply_transition}
use agentic_cartoon_demo.Workflow.Reconcile.{
  RepairPattern, rp001, rp002, rp003, rp004, ReconciliationCandidate, Scanner, latest_expected,
  evaluate_rp003, is_stuck_retriable, current_attempt,
}
use agentic_cartoon_demo.Workflow.Reconcile.Collect.{collect_candidates}

-- workflow/types.py
pub record ReconciliationReport : Type 0 where
  pub workflow_id : String
  pub repair_action : RepairPattern
  pub repaired : Bool
  pub detail : Option String

pub record ReconciliationResult : Type 0 where
  pub scanned_count : ℕ
  pub repaired_count : ℕ
  pub reports : List ReconciliationReport

-- A report, and what it adds to `repaired_count`.
abbrev pub Repair : Type 0
Repair = ReconciliationReport × ℕ

abbrev pub report : ReconciliationCandidate → Bool → Option String → ReconciliationReport
report c repaired detail = record {
  workflow_id = c.workflow.workflow_id;
  repair_action = c.pattern_id;
  repaired = repaired;
  detail = detail;
}

abbrev pub left_alone : ReconciliationCandidate → Option String → Repair
left_alone c detail = (report c false detail, 0)

abbrev pub repaired : ReconciliationCandidate → Option String → Repair
repaired c detail = (report c true detail, 1)

abbrev pub result :
    List ReconciliationCandidate → List ReconciliationReport × ℕ → ReconciliationResult
result candidates (reports, repaired_count) = record {
  scanned_count = length candidates;
  repaired_count = repaired_count;
  reports = reports;
}

-- `_run_guarded`, of a call whose result is not used.
abbrev pub run_guarded {ℓ} : {A : Type ℓ} → Action A → Action (Unit {0})
run_guarded m = do require_active; _ ← m; pure tt

-- `_in_transaction`
abbrev pub in_transaction_or_new {ℓ} : {A : Type ℓ} → Bool → Action A → Action A
in_transaction_or_new true m = m
in_transaction_or_new false m = transaction m

unfoldable pub in_transaction : Action (Unit {0}) → Action (Unit {0})
in_transaction m = do active ← is_in_transaction; in_transaction_or_new active m

-- `expected_task_type` as `recreate_expected_outbox` takes it: `TaskType("None")` is a ValueError.
unfoldable pub recreate : WorkflowRecord → Option TaskType → ℕ → Action (Unit {0})
recreate fresh none attempt = raise value_error
recreate fresh (some type) attempt =
    in_transaction (run_guarded (recreate_expected_outbox fresh type attempt))

abbrev pub giving_up : WorkflowRecord → TransitionRequest
giving_up fresh = record {
  workflow_id = fresh.workflow_id;
  expected_state = fresh.state;
  signal = TransitionSignal.reconciliation_repair;
  reason = "stuck_state_timeout";
  actor = none;
}

module _ (repo : Repo) (config : WorkflowConfig) (s : Scanner) where
  -- `repair_failed`
  unfoldable pub give_up : WorkflowRecord → Action (Unit {0})
  give_up fresh = in_transaction (run_guarded (apply_transition repo config (giving_up fresh)))

  -- A workflow that is still stuck: another attempt, or the end.
  unfoldable pub retry_or_give_up :
      ReconciliationCandidate → WorkflowRecord → Option TaskRecord → Action Repair
  unfolding recreate give_up
  retry_or_give_up c fresh latest_task =
      if is_stuck_retriable latest_task
          (s.max_attempts (get_or c.expected_task_type TaskType.collect))
        && is_some c.expected_task_type
      then (recreate fresh c.expected_task_type (current_attempt latest_task + 1)
          >> pure (repaired c (some "outbox_retry")))
      else give_up fresh >> pure (repaired c none)

  -- The evaluation with the fresh row, at the time that the clock answers.
  abbrev pub judge :
      ReconciliationCandidate → WorkflowRecord → Option TaskRecord → ℕ → Action Repair
  judge c fresh latest_task t =
      if (evaluate_rp003 s fresh latest_task t).is_stuck
      then retry_or_give_up c fresh latest_task
      else pure (left_alone c none)

  unfoldable pub repair_stuck : ReconciliationCandidate → WorkflowRecord → Action Repair
  unfolding retry_or_give_up evaluate_rp003
  repair_stuck c fresh = do
    latest_task ← gets (λ db.
        latest_expected (list_tasks_for_workflow repo fresh.workflow_id db) c.expected_task_type)
    t ← now
    judge c fresh latest_task t

  unfoldable pub repair_pattern :
      RepairPattern → ReconciliationCandidate → WorkflowRecord → Action Repair
  unfolding repair_stuck recreate
  repair_pattern rp002 c fresh = pure (left_alone c (some "outbox_pending_publish"))
  repair_pattern rp004 c fresh = pure (left_alone c (some "terminal_unpublished_outbox"))
  repair_pattern rp001 c fresh = recreate fresh c.expected_task_type 1 >> pure (repaired c none)
  repair_pattern rp003 c fresh = repair_stuck c fresh

  -- The test of the version comes first.
  abbrev pub repair_row : ReconciliationCandidate → Option WorkflowRecord → Action Repair
  repair_row c none = pure (left_alone c (some "version_mismatch_skip"))
  repair_row c (some fresh) =
      if eqb fresh.state_version c.workflow.state_version
      then repair_pattern c.pattern_id c fresh
      else pure (left_alone c (some "version_mismatch_skip"))

  -- The body of the loop of `scan_and_repair`.
  unfoldable pub repair_candidate : ReconciliationCandidate → Action Repair
  unfolding repair_pattern
  repair_candidate c = do found ← get_workflow c.workflow.workflow_id; repair_row c found

  abbrev pub and_report : Repair → List ReconciliationReport × ℕ → List ReconciliationReport × ℕ
  and_report (r, n) (rs, m) = (r ∷ rs, n + m)

  unfoldable pub repair_candidates :
      List ReconciliationCandidate → Action (List ReconciliationReport × ℕ)
  unfolding repair_candidate
  repair_candidates [] = pure ([], 0)
  repair_candidates (c ∷ cs) = do
    first ← repair_candidate c
    rest ← repair_candidates cs
    pure (and_report first rest)

  -- `scan_and_repair`
  unfoldable pub scan_and_repair : ℕ → Action ReconciliationResult
  unfolding repair_candidates collect_candidates
  scan_and_repair batch_size = do
    candidates ← collect_candidates repo s batch_size
    r ← repair_candidates candidates
    pure (result candidates r)
