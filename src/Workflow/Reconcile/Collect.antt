-- ===== src/Workflow/Reconcile/Collect.antt =====
-- workflow/reconcile.py: `collect_candidates`.
use agentic_cartoon_demo.Base.{
  ℕ, ◌-◌, Bool, true, false, ◌||◌, String, List, [], ◌∷◌, ◌++◌, map, Option, none, some,
  if◌then◌else◌, ◌=str=◌, find, take,
}
use agentic_cartoon_demo.Config.{TaskType}
use agentic_cartoon_demo.Exceptions.{overflow_error}
use agentic_cartoon_demo.Persistence.Types.{WorkflowRecord, OutboxEntry}
use agentic_cartoon_demo.Persistence.Session.{Db, Action, pure, raise, gets, ◌>>=◌, now}
use agentic_cartoon_demo.Persistence.WorkflowRepo.{Repo, workflow_key}
use agentic_cartoon_demo.Persistence.OutboxRepo.{fetch_unpublished}
use agentic_cartoon_demo.Persistence.Listings.{
  list_tasks_for_workflow, list_workflows_for_reconciliation, list_unpublished_outbox_for_workflow,
}
use agentic_cartoon_demo.Workflow.Types.{WorkflowState, state_eq, is_terminal}
use agentic_cartoon_demo.Workflow.Reconcile.{
  rp001, rp002, rp003, rp004, ReconciliationCandidate, Scanner, threshold_for, latest_expected,
  rp001_expected_task, evaluate_rp003, dedupe_candidates,
}

abbrev pub rp001_candidate : WorkflowRecord → TaskType → ReconciliationCandidate
rp001_candidate row type = record {
  workflow = row;
  pattern_id = rp001;
  expected_task_type = some type;
  detail = none;
}

module _ (repo : Repo) (s : Scanner) where
  -- The expected task of a row, as all three passes compute it.
  abbrev pub expected_of : WorkflowRecord → Db → Option TaskType
  expected_of row db =
      rp001_expected_task row (list_tasks_for_workflow repo row.workflow_id db)
        (list_unpublished_outbox_for_workflow repo row.workflow_id db)

  -- The body of the first loop: a candidate for RP-003 if the row is stuck.
  unfoldable pub stuck_candidate : WorkflowRecord → Action (List ReconciliationCandidate)
  unfolding evaluate_rp003
  stuck_candidate row = do
    tasks ← gets (list_tasks_for_workflow repo row.workflow_id)
    expected ← gets (expected_of row)
    t ← now
    let evaluation = evaluate_rp003 s row (latest_expected tasks expected) t
    let candidate : ReconciliationCandidate = record {
      workflow = row;
      pattern_id = rp003;
      expected_task_type = expected;
      detail = none;
    }
    pure (if evaluation.is_stuck then candidate ∷ [] else [])

  unfoldable pub stuck_candidates : List WorkflowRecord → Action (List ReconciliationCandidate)
  unfolding stuck_candidate
  stuck_candidates [] = pure []
  stuck_candidates (row ∷ rows) = do
    found ← stuck_candidate row
    rest ← stuck_candidates rows
    pure (found ++ rest)

  -- `now - timedelta(seconds=threshold)`: an infinite timedelta is an OverflowError. No row is dated
  -- before the beginning of time, to which the difference is cut off here.
  abbrev pub updated_before : ℕ → Option ℕ → Action ℕ
  updated_before start none = raise overflow_error
  updated_before start (some threshold) = pure (start - threshold)

  unfoldable pub stuck_states : ℕ → List WorkflowState → ℕ → Action (List ReconciliationCandidate)
  unfolding stuck_candidates threshold_for
  stuck_states start [] batch_size = pure []
  stuck_states start (state ∷ states) batch_size = do
    before ← updated_before start (threshold_for s state)
    rows ← gets (list_workflows_for_reconciliation repo (state_eq state) (some before) batch_size)
    found ← stuck_candidates rows
    rest ← stuck_states start states batch_size
    pure (found ++ rest)

  -- `scan_states`
  abbrev pub is_scanned : WorkflowState → Bool
  is_scanned WorkflowState.collecting = true
  is_scanned WorkflowState.collected = true
  is_scanned WorkflowState.topic_selected = true
  is_scanned WorkflowState.scenario_generated = true
  is_scanned WorkflowState.generating_scenario = true
  is_scanned _ = false

  -- What the second loop does with a row that is not terminal.
  abbrev pub outbox_candidate :
      WorkflowRecord → List OutboxEntry → Option TaskType → List ReconciliationCandidate
  outbox_candidate row (_ ∷ _) expected =
      record {
        workflow = row;
        pattern_id = rp002;
        expected_task_type = none;
        detail = some "outbox_pending_publish";
      }
      ∷ []
  outbox_candidate row [] none = []
  outbox_candidate row [] (some type) = rp001_candidate row type ∷ []

  unfoldable pub outbox_candidates : List WorkflowRecord → Db → List ReconciliationCandidate
  outbox_candidates [] db = []
  outbox_candidates (row ∷ rows) db =
      let unpublished = list_unpublished_outbox_for_workflow repo row.workflow_id db in
      (if is_terminal row.state then [] else outbox_candidate row unpublished (expected_of row db))
      ++ outbox_candidates rows db

  -- `workflow_id in seen_ids`
  abbrev pub is_seen : String → List String → Bool
  is_seen id [] = false
  is_seen id (j ∷ js) = (id =str= j) || is_seen id js

  -- The row of an entry's workflow, if the third loop makes a candidate of it.
  abbrev pub terminal_row : OutboxEntry → List String → Db → Option WorkflowRecord
  terminal_row e seen_ids db =
      if is_seen e.workflow_id seen_ids
      then none
      else elim (find workflow_key e.workflow_id db.workflows) [
        | none ↦ none
        | some row ↦ if is_terminal row.state then some row else none
      ]

  abbrev pub terminal_candidate : WorkflowRecord → ReconciliationCandidate
  terminal_candidate row = record {
    workflow = row;
    pattern_id = rp004;
    expected_task_type = none;
    detail = some "terminal_unpublished_outbox";
  }

  unfoldable pub terminal_candidates :
      List OutboxEntry → List String → Db → List ReconciliationCandidate
  unfolding find
  terminal_candidates [] seen_ids db = []
  terminal_candidates (e ∷ es) seen_ids db = elim (terminal_row e seen_ids db) [
    | none ↦ terminal_candidates es seen_ids db
    | some row ↦ terminal_candidate row ∷ terminal_candidates es (e.workflow_id ∷ seen_ids) db
  ]

  abbrev pub workflow_ids : List ReconciliationCandidate → List String
  workflow_ids = map (λ c. c.workflow.workflow_id)

  -- What `collect_candidates` does after the first loop, which has found `stuck`.
  unfoldable pub collect_rest :
      ℕ → List ReconciliationCandidate → Action (List ReconciliationCandidate)
  unfolding outbox_candidates terminal_candidates dedupe_candidates
  collect_rest batch_size stuck = do
    rows ← gets (list_workflows_for_reconciliation repo is_scanned none batch_size)
    pending ← gets (outbox_candidates rows)
    entries ← fetch_unpublished batch_size
    let candidates = stuck ++ pending
    finished ← gets (terminal_candidates entries (workflow_ids candidates))
    pure (take batch_size (dedupe_candidates (candidates ++ finished)))

  -- `collect_candidates`
  unfoldable pub collect_candidates : ℕ → Action (List ReconciliationCandidate)
  unfolding stuck_states collect_rest
  collect_candidates batch_size = do
    start ← now
    stuck ← stuck_states start s.transient_states batch_size
    collect_rest batch_size stuck
