-- ===== src/Workflow/Reconcile.antt =====
-- workflow/reconcile.py: the scanner's data, and the tests that find a stuck workflow. A duration,
-- like a datetime, is a number of microseconds.
pub mod Collect
pub mod Reads
pub mod Repair
pub mod Dedupe
pub mod Stuck
pub mod Sweep
pub mod Effects
pub mod Failing
pub mod Counts
pub mod Postgres
pub mod Tests
use agentic_cartoon_demo.Base.{
  ℕ, ◌-◌, ◌*◌, Bool, true, false, not, ◌&&◌, ◌||◌, String, List, [], ◌∷◌, Option, none, some,
  if◌then◌else◌, ltb, ◌=str=◌, filter,
}
use agentic_cartoon_demo.Config.{TaskType, task_type_eq}
use agentic_cartoon_demo.Persistence.Types.{WorkflowRecord, TaskRecord, TaskStatus, OutboxEntry}
use agentic_cartoon_demo.Workflow.Types.{WorkflowState, state_eq, is_terminal, is_transient}
use agentic_cartoon_demo.Workflow.TransitionTable.{expected_outbox_task}

-- `pattern_id`
pub data RepairPattern : Type 0 where
  rp001 rp002 rp003 rp004 : RepairPattern

-- `_PATTERN_PRIORITY`
abbrev pub pattern_priority : RepairPattern → ℕ
pattern_priority rp003 = 0
pattern_priority rp001 = 1
pattern_priority rp002 = 2
pattern_priority rp004 = 3

pub record ReconciliationCandidate : Type 0 where
  pub workflow : WorkflowRecord
  pub pattern_id : RepairPattern
  pub expected_task_type : Option TaskType
  pub detail : Option String

pub record StuckStateEvaluation : Type 0 where
  pub is_stuck : Bool
  pub threshold_seconds : Option ℕ
  pub elapsed_seconds : ℕ
  pub in_flight_task : Bool

-- What the scanner is built with: the thresholds that override the defaults, the attempts of the
-- retry policies, and the order in which Python iterates over the
-- frozenset TRANSIENT_STATES.
pub record Scanner : Type 0 where
  pub stuck_overrides : WorkflowState → Option ℕ
  pub max_attempts : TaskType → ℕ
  pub transient_states : List WorkflowState

-- `STUCK_THRESHOLD_SHORT_STATES`
abbrev pub is_short : WorkflowState → Bool
is_short WorkflowState.collecting = true
is_short WorkflowState.selecting_topic = true
is_short WorkflowState.generating_scenario = true
is_short WorkflowState.reviewing = true
is_short _ = false

abbrev pub seconds : ℕ → ℕ
seconds n = n * 1000000

-- `stuck_threshold_seconds`; none is infinity.
unfoldable pub stuck_threshold_seconds : WorkflowState → Option ℕ
stuck_threshold_seconds state =
    if is_short state
    then some (seconds 1800)
    else if is_transient state
    then some (seconds 3600)
    else none

-- `_threshold_for`
unfoldable pub threshold_for : Scanner → WorkflowState → Option ℕ
unfolding stuck_threshold_seconds
threshold_for s state = elim (s.stuck_overrides state) [
  | some t ↦ some t
  | none ↦ stuck_threshold_seconds state
]

-- `status in _IN_FLIGHT`
abbrev pub is_in_flight : TaskStatus → Bool
is_in_flight TaskStatus.pending = true
is_in_flight TaskStatus.dispatched = true
is_in_flight TaskStatus.in_progress = true
is_in_flight _ = false

-- `max(matching, key=created_at)`: the first of the greatest.
abbrev pub latest : List TaskRecord → Option TaskRecord
latest [] = none
latest (t ∷ ts) = elim (latest ts) [
  | none ↦ some t
  | some u ↦ if ltb t.created_at u.created_at then some u else some t
]

-- `_latest_task_of_type`
unfoldable pub latest_task_of_type : List TaskRecord → TaskType → Option TaskRecord
latest_task_of_type tasks type = latest (filter (λ t. task_type_eq t.task_type type) tasks)

-- `_latest_task_of_type(tasks, expected) if expected is not None else None`
abbrev pub latest_expected : List TaskRecord → Option TaskType → Option TaskRecord
latest_expected tasks none = none
latest_expected tasks (some type) = latest_task_of_type tasks type

-- `_has_unpublished`
unfoldable pub has_unpublished : List OutboxEntry → TaskType → Bool
has_unpublished [] type = false
has_unpublished (e ∷ es) type = task_type_eq e.task_type type || has_unpublished es type

-- What `_rp001_expected_task` tests in GENERATING_SCENARIO.
abbrev pub expected_generate : Option TaskRecord → Bool → Option TaskType
expected_generate none unpublished = none
expected_generate (some t) unpublished =
    if is_in_flight t.status
    then none
    else if unpublished
    then none
    else some TaskType.generate_scenario

-- `_rp001_expected_task`
unfoldable pub rp001_expected_task :
    WorkflowRecord → List TaskRecord → List OutboxEntry → Option TaskType
unfolding state_eq expected_outbox_task
rp001_expected_task workflow tasks unpublished =
    if state_eq workflow.state WorkflowState.generating_scenario
    then expected_generate (latest_task_of_type tasks TaskType.generate_scenario)
        (has_unpublished unpublished TaskType.generate_scenario)
    else expected_outbox_task workflow.state

-- `is_stuck_retriable`
abbrev pub current_attempt : Option TaskRecord → ℕ
current_attempt none = 0
current_attempt (some t) = t.attempt

abbrev pub is_stuck_retriable : Option TaskRecord → ℕ → Bool
is_stuck_retriable latest_task max_attempts = ltb (current_attempt latest_task) max_attempts

abbrev pub exceeds : ℕ → Option ℕ → Bool
exceeds elapsed none = false
exceeds elapsed (some threshold) = ltb threshold elapsed

abbrev pub in_flight : Option TaskRecord → Bool
in_flight none = false
in_flight (some t) = is_in_flight t.status

-- `_evaluate_rp003`, from what the clock answers. A row that is dated after the clock's answer has
-- no negative age here; no threshold is below 0.
unfoldable pub evaluate_rp003 :
    Scanner → WorkflowRecord → Option TaskRecord → ℕ → StuckStateEvaluation
unfolding threshold_for
evaluate_rp003 s workflow latest_task now =
    let elapsed = now - workflow.updated_at in
    let threshold = threshold_for s workflow.state in
    record {
      is_stuck = exceeds elapsed threshold && not (in_flight latest_task);
      threshold_seconds = threshold;
      elapsed_seconds = elapsed;
      in_flight_task = in_flight latest_task;
    }

-- One step of `_dedupe_candidates`: a dict keeps the place of the first candidate of a workflow.
unfoldable pub place :
    ReconciliationCandidate → List ReconciliationCandidate → List ReconciliationCandidate
place c [] = c ∷ []
place c (x ∷ xs) =
    let later = x ∷ place c xs in
    if x.workflow.workflow_id =str= c.workflow.workflow_id
    then (if ltb (pattern_priority c.pattern_id) (pattern_priority x.pattern_id)
        then c ∷ xs
        else x ∷ xs)
    else later

unfoldable pub dedupe_from :
    List ReconciliationCandidate → List ReconciliationCandidate → List ReconciliationCandidate
unfolding place
dedupe_from by_id [] = by_id
dedupe_from by_id (c ∷ cs) = dedupe_from (place c by_id) cs

-- `_dedupe_candidates`
unfoldable pub dedupe_candidates : List ReconciliationCandidate → List ReconciliationCandidate
unfolding dedupe_from
dedupe_candidates candidates = dedupe_from [] candidates
