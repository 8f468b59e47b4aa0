-- ===== src/Workflow/Reconcile/Stuck.antt =====
-- workflow/reconcile.py: which rows are taken for stuck, and which task is expected of them.
use agentic_cartoon_demo.Base.{
  ℕ, ◌-◌, ◌≡◌, refl, inl, inr, Bool, true, false, Bool-cases, Option, none, some, List, ap, ◌∙◌,
  if◌then◌else◌, arith,
}
use agentic_cartoon_demo.Config.{TaskType}
use agentic_cartoon_demo.Persistence.Types.{WorkflowRecord, TaskRecord, OutboxEntry}
use agentic_cartoon_demo.Workflow.Types.{WorkflowState, state_eq_iff}
use agentic_cartoon_demo.Workflow.Reconcile.{
  StuckStateEvaluation, Scanner, exceeds, in_flight, is_in_flight, threshold_for,
  latest_task_of_type, latest_expected, has_unpublished, expected_generate, rp001_expected_task,
  evaluate_rp003,
}

generate-free :
    (tasks : List TaskRecord) (o : Option TaskRecord) (unpublished : Bool)
    → latest_task_of_type tasks TaskType.generate_scenario ≡ o
    → in_flight (latest_expected tasks (expected_generate o unpublished)) ≡ false
generate-free tasks none unpublished e = refl
generate-free tasks (some t) unpublished e = elim (Bool-cases (is_in_flight t.status)) [
  | inl f ↦ rw f refl
  | inr f ↦ rw f (free unpublished f)
]
  where
    free :
        (u : Bool)
        → is_in_flight t.status ≡ false
        → in_flight (latest_expected tasks (if u then none else some TaskType.generate_scenario))
          ≡ false
    free true f = refl
    free false f = ap in_flight e ∙ f

-- The evaluation of a row in the first loop of `collect_candidates`.
abbrev pub evaluation_of :
    Scanner → WorkflowRecord → List TaskRecord → List OutboxEntry → ℕ → StuckStateEvaluation
evaluation_of s w tasks unpublished now =
    evaluate_rp003 s w (latest_expected tasks (rp001_expected_task w tasks unpublished)) now

generating-in_flight :
    (w : WorkflowRecord) (tasks : List TaskRecord) (unpublished : List OutboxEntry)
    → w.state ≡ WorkflowState.generating_scenario
    → in_flight (latest_expected tasks (rp001_expected_task w tasks unpublished)) ≡ false
unfolding rp001_expected_task
generating-in_flight w tasks unpublished h =
    let here = (state_eq_iff w.state WorkflowState.generating_scenario).1 h in
    rw here (
      generate-free tasks (latest_task_of_type tasks TaskType.generate_scenario)
        (has_unpublished unpublished TaskType.generate_scenario) refl)

-- A workflow in GENERATING_SCENARIO counts as stuck by its age alone: whatever its tasks and its
-- outbox entries are, tasks in flight among them, the evaluation says that none is in flight, and
-- the workflow is stuck exactly when its age exceeds the threshold.
pub generating-is_stuck :
    (s : Scanner) (w : WorkflowRecord) (tasks : List TaskRecord) (unpublished : List OutboxEntry)
    (now : ℕ)
    → w.state ≡ WorkflowState.generating_scenario
    → ((evaluation_of s w tasks unpublished now).in_flight_task ≡ false)
      × ((evaluation_of s w tasks unpublished now).is_stuck
          ≡ exceeds (now - w.updated_at) (threshold_for s w.state))
unfolding evaluate_rp003
generating-is_stuck s w tasks unpublished now h =
    let free = generating-in_flight w tasks unpublished h in (free, ground (arith, free))
