-- ===== src/Worker/StateGuard.antt =====
-- worker/state_mapping.py: which tasks are stale, and where a task's transition leads.
use agentic_cartoon_demo.Base.{
  ℕ, ◌≤◌, ◌≡◌, refl, sym, subst, ◌≢◌, ◌⊎◌, inl, inr, true, Bool-cases, String, Option, none, some,
  if◌then◌else◌, leb, leb→le, arith,
}
use agentic_cartoon_demo.Config.{TaskType}
use agentic_cartoon_demo.Exceptions.{Result, ok, err, value_error}
use agentic_cartoon_demo.Workflow.Types.{
  WorkflowState, TransitionSignal, state_eq, state_eq_iff, is_terminal,
}
use agentic_cartoon_demo.Workflow.TransitionTable.{TransitionDecision, lookup}

pub data StaleAction : Type 0 where
  proceed ack_and_skip ack_and_skip_approval ack_and_skip_terminal : StaleAction

pub record StaleTaskDecision : Type 0 where
  pub action : StaleAction
  pub reason : Option String

abbrev pub expected_state_for_task : TaskType → WorkflowState
expected_state_for_task TaskType.collect = WorkflowState.collecting
expected_state_for_task TaskType.select_topic = WorkflowState.selecting_topic
expected_state_for_task TaskType.generate_scenario = WorkflowState.generating_scenario
expected_state_for_task TaskType.review_scenario = WorkflowState.reviewing

-- `classify_stale_task`
unfoldable pub classify_stale_task : WorkflowState → TaskType → StaleTaskDecision
unfolding state_eq
classify_stale_task workflow_state task_type =
    if state_eq workflow_state WorkflowState.awaiting_human_approval
    then record { action = StaleAction.ack_and_skip_approval; reason = none }
    else if is_terminal workflow_state
    then record { action = StaleAction.ack_and_skip_terminal; reason = none }
    else if state_eq workflow_state (expected_state_for_task task_type)
    then record { action = StaleAction.proceed; reason = none }
    else record { action = StaleAction.ack_and_skip; reason = some "state_mismatch" }

-- `_POST_TRANSITION_TABLE.get(key)`
unfoldable pub post_transition_table : TaskType → TransitionSignal → Option WorkflowState
post_transition_table TaskType.collect TransitionSignal.stage_completed =
    some WorkflowState.collected
post_transition_table TaskType.select_topic TransitionSignal.stage_completed =
    some WorkflowState.topic_selected
post_transition_table TaskType.select_topic TransitionSignal.no_suitable_topic =
    some WorkflowState.no_suitable_topic
post_transition_table TaskType.generate_scenario TransitionSignal.stage_completed =
    some WorkflowState.scenario_generated
post_transition_table TaskType.review_scenario TransitionSignal.critic_pass =
    some WorkflowState.review_passed
post_transition_table TaskType.review_scenario TransitionSignal.critic_revise =
    some WorkflowState.revision_required
post_transition_table _ _ = none

-- `post_state is None` raises ValueError.
abbrev or_value_error : Option WorkflowState → Result WorkflowState
or_value_error none = err value_error
or_value_error (some s) = ok s

-- `post_transition_state`
unfoldable pub post_transition_state : TaskType → TransitionSignal → Result WorkflowState
unfolding post_transition_table
post_transition_state task_type TransitionSignal.retries_exhausted =
    ok WorkflowState.failed_permanently
post_transition_state task_type TransitionSignal.unrecoverable_error = ok WorkflowState.failed
post_transition_state task_type signal = or_value_error (post_transition_table task_type signal)

-- The state in which a task of each type may run.
pub data Expects : TaskType → WorkflowState → Type 0 where
  collecting : Expects TaskType.collect WorkflowState.collecting
  selecting : Expects TaskType.select_topic WorkflowState.selecting_topic
  generating : Expects TaskType.generate_scenario WorkflowState.generating_scenario
  reviewing : Expects TaskType.review_scenario WorkflowState.reviewing

-- The states in which nothing runs any more.
pub data IsOver : WorkflowState → Type 0 where
  no_topic : IsOver WorkflowState.no_suitable_topic
  approved : IsOver WorkflowState.approved
  rejected : IsOver WorkflowState.rejected
  review_failed : IsOver WorkflowState.review_failed
  failed : IsOver WorkflowState.failed
  failed_permanently : IsOver WorkflowState.failed_permanently

-- What a classification says of the workflow's state and the task's type.
pub data Classified (s : WorkflowState) (t : TaskType) : StaleTaskDecision → Type 0 where
  runs : Expects t s → Classified s t (record { action = StaleAction.proceed; reason = none })
  waits :
      s ≡ WorkflowState.awaiting_human_approval
      → Classified s t (record { action = StaleAction.ack_and_skip_approval; reason = none })
  over :
      IsOver s
      → Classified s t (record { action = StaleAction.ack_and_skip_terminal; reason = none })
  mismatched :
      (Expects t s → ⊥)
      → s ≢ WorkflowState.awaiting_human_approval
      → (IsOver s → ⊥)
      → Classified s t
          (record { action = StaleAction.ack_and_skip; reason = some "state_mismatch" })

Expects-expected : (s : WorkflowState) (t : TaskType) → Expects t s → s ≡ expected_state_for_task t
Expects-expected _ _ collecting = refl
Expects-expected _ _ selecting = refl
Expects-expected _ _ generating = refl
Expects-expected _ _ reviewing = refl

expected-Expects : (t : TaskType) → Expects t (expected_state_for_task t)
expected-Expects TaskType.collect = collecting
expected-Expects TaskType.select_topic = selecting
expected-Expects TaskType.generate_scenario = generating
expected-Expects TaskType.review_scenario = reviewing

IsOver-is_terminal : (s : WorkflowState) → IsOver s → is_terminal s ≡ true
IsOver-is_terminal _ no_topic = refl
IsOver-is_terminal _ approved = refl
IsOver-is_terminal _ rejected = refl
IsOver-is_terminal _ review_failed = refl
IsOver-is_terminal _ failed = refl
IsOver-is_terminal _ failed_permanently = refl

is_terminal-IsOver : (s : WorkflowState) → is_terminal s ≡ true → IsOver s
is_terminal-IsOver WorkflowState.no_suitable_topic h = no_topic
is_terminal-IsOver WorkflowState.approved h = approved
is_terminal-IsOver WorkflowState.rejected h = rejected
is_terminal-IsOver WorkflowState.review_failed h = review_failed
is_terminal-IsOver WorkflowState.failed h = failed
is_terminal-IsOver WorkflowState.failed_permanently h = failed_permanently
is_terminal-IsOver _ h = cc

-- A task is classified as `proceed` when its workflow is in the one state of its type (COLLECTING,
-- SELECTING_TOPIC, GENERATING_SCENARIO or REVIEWING), as `ack_and_skip_approval` when the workflow
-- awaits a person's approval, as `ack_and_skip_terminal` when it is in one of the six terminal states,
-- and as `ack_and_skip`, with the reason "state_mismatch", when it is in none of these.
pub classify_stale_task-Classified :
    (workflow_state : WorkflowState) (task_type : TaskType)
    → Classified workflow_state task_type (classify_stale_task workflow_state task_type)
unfolding classify_stale_task
classify_stale_task-Classified s t =
    elim (Bool-cases (state_eq s WorkflowState.awaiting_human_approval)) [
      | inl e ↦ rw e (waits ((state_eq_iff s WorkflowState.awaiting_human_approval).0 e))
      | inr e ↦ elim (Bool-cases (is_terminal s)) [
        | inl f ↦ rw (e, f) (over (is_terminal-IsOver s f))
        | inr f ↦ elim (Bool-cases (state_eq s (expected_state_for_task t))) [
          | inl g ↦
              let here = (state_eq_iff s (expected_state_for_task t)).0 g in
              rw (e, f, g) (runs (subst (Expects t) (sym here) (expected-Expects t)))
          | inr g ↦
              rw (e, f, g)
                (mismatched
                  (λ h.
                    let same =
                      (state_eq_iff s (expected_state_for_task t)).1 (Expects-expected s t h) in
                    ground (arith, g, same))
                  (λ h.
                    let same = (state_eq_iff s WorkflowState.awaiting_human_approval).1 h in
                    ground (arith, e, same))
                  (λ h. ground (arith, f, IsOver-is_terminal s h)))
        ]
      ]
    ]

-- What a lookup and the worker's table say of one signal.
abbrev pub Matches :
    ℕ → ℕ → TransitionSignal → Result TransitionDecision → Result WorkflowState → Type 0
Matches count limit signal (ok d) (ok s) =
    (d.to_state ≡ s)
    ⊎ ((signal ≡ TransitionSignal.critic_revise)
        × (limit ≤ count)
        × (d.to_state ≡ WorkflowState.review_failed))
Matches count limit signal (err _) (err e) = e ≡ value_error
Matches count limit signal (ok d) (err e) = signal ≡ TransitionSignal.reconciliation_repair
Matches count limit signal (err e) (ok s) = ⊥

-- For each task type and signal, the worker's table of post-transition states agrees with the
-- transition table from the state that the task expects: they name the same state, or both refuse;
-- except that the worker does not know the signal RECONCILIATION_REPAIR, nor the revision cap, at
-- which the engine goes to REVIEW_FAILED.
pub post_transition_state-Matches :
    (task_type : TaskType) (signal : TransitionSignal) (count limit : ℕ)
    → Matches count limit signal
        (lookup (expected_state_for_task task_type) signal count limit)
        (post_transition_state task_type signal)
unfolding lookup post_transition_state
post_transition_state-Matches TaskType.review_scenario TransitionSignal.critic_revise count limit =
    elim (Bool-cases (leb limit count)) [
      | inl e ↦ rw e (inr (refl, leb→le limit count e, refl))
      | inr e ↦ rw e (inl refl)
    ]
post_transition_state-Matches TaskType.collect TransitionSignal.stage_completed count limit =
    inl refl
post_transition_state-Matches _ _ count limit = ground arith
