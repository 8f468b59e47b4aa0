-- ===== src/Worker/Commit.antt =====
-- worker/loop.py: what the worker commits for a delivery whose handler has returned. Telemetry, the
-- lists of recorded events and failure injection are left out.
pub mod Bridge
pub mod Frame
pub mod Duplicate
pub mod Once
pub mod Recorded
use agentic_cartoon_demo.Base.{
  ℕ, zero, suc, ◌+◌, Bool, true, false, ◌&&◌, ◌||◌, String, Option, none, some, is_some, get_or,
  text_or, if◌then◌else◌, ◌=str=◌,
}
use agentic_cartoon_demo.Config.{TaskType, WorkflowConfig}
use agentic_cartoon_demo.Exceptions.{Exception, Result, ok, err, workflow_conflict, task_execution}
use agentic_cartoon_demo.Persistence.Types.{WorkflowRecord, TaskRecord, TaskStatus}
use agentic_cartoon_demo.Persistence.Session.{
  Db, Action, pure, raise, and_then, ◌>>=◌, ◌>>◌, now, require_active, transaction,
}
use agentic_cartoon_demo.Persistence.WorkflowRepo.{Repo, get_workflow, get_task, update_task}
use agentic_cartoon_demo.Persistence.IdempotencyRepo.{IdempotencyInsertSpec}
use agentic_cartoon_demo.Workflow.Types.{WorkflowState, TransitionSignal, state_eq}
use agentic_cartoon_demo.Workflow.Executor.{TransitionResult}
use agentic_cartoon_demo.Workflow.Engine.{TransitionRequest, apply_transition}
use agentic_cartoon_demo.Worker.Types.{
  TaskHandlerOutcome, TaskHandlerResult, IdempotencyPhase, DeliveryContext, TaskMessage,
}
use agentic_cartoon_demo.Worker.StateGuard.{expected_state_for_task, post_transition_state}
use agentic_cartoon_demo.Worker.Idempotency.{claim_completion}

-- `pause_after_enqueue`, `post_stage_bridge` and `active_execution_states`
abbrev pub is_pause_after_enqueue : WorkflowState → Bool
is_pause_after_enqueue WorkflowState.collected = true
is_pause_after_enqueue WorkflowState.topic_selected = true
is_pause_after_enqueue WorkflowState.scenario_generated = true
is_pause_after_enqueue _ = false

abbrev pub is_post_stage_bridge : WorkflowState → Bool
is_post_stage_bridge WorkflowState.review_passed = true
is_post_stage_bridge WorkflowState.revision_required = true
is_post_stage_bridge _ = false

abbrev pub is_active_execution : WorkflowState → Bool
is_active_execution WorkflowState.selecting_topic = true
is_active_execution WorkflowState.generating_scenario = true
is_active_execution WorkflowState.reviewing = true
is_active_execution WorkflowState.awaiting_human_approval = true
is_active_execution _ = false

abbrev pub needs_bridge : TransitionResult → Bool
needs_bridge current =
    (is_some current.enqueued_task && is_pause_after_enqueue current.to_state)
    || is_post_stage_bridge current.to_state

-- The turns that the loop is given.
abbrev pub bridge_fuel : ℕ
bridge_fuel = 1

abbrev pub signal_of : TaskHandlerResult → TransitionSignal
signal_of result = get_or result.transition_signal TransitionSignal.stage_completed

-- The values of the `retryable` flag that `classify_handler_result` gives.
abbrev pub is_retryable : TaskHandlerOutcome → Bool
is_retryable TaskHandlerOutcome.retryable_failure = true
is_retryable _ = false

abbrev pub is_success : TaskHandlerOutcome → Bool
is_success TaskHandlerOutcome.completed = true
is_success TaskHandlerOutcome.duplicate_reused = true
is_success _ = false

-- `except WorkflowConflictError`
abbrev pub on_conflict {ℓ} : {A : Type ℓ} → (Exception → Action A) → Result A → Action A
on_conflict handler (err (workflow_conflict workflow_id)) = handler (workflow_conflict workflow_id)
on_conflict handler (ok a) = pure a
on_conflict handler (err e) = raise e

abbrev pub except_conflict {ℓ} : {A : Type ℓ} → Action A → (Exception → Action A) → Action A
except_conflict m handler db = let (r, after) = m db in on_conflict handler r after

abbrev pub or_raise : Result WorkflowState → Action WorkflowState
or_raise (ok s) = pure s
or_raise (err e) = raise e

module _ (repo : Repo) (config : WorkflowConfig) where
  abbrev pub bridge_request : TaskMessage → WorkflowState → TransitionRequest
  bridge_request message state = record {
    workflow_id = message.workflow_id;
    expected_state = state;
    signal = TransitionSignal.stage_completed;
    reason = "dispatch_bridge";
    actor = none;
  }

  -- The `while True` of `_apply_dispatch_bridge_transitions`, on fuel: false when it runs out.
  unfoldable pub bridge : ℕ → TaskMessage → TransitionResult → Action Bool
  unfolding apply_transition
  bridge zero message current = pure (if needs_bridge current then false else true)
  bridge (suc fuel) message current =
      let rest = λ (next : TransitionResult). bridge fuel message next in
      if needs_bridge current
      then (apply_transition repo config (bridge_request message current.to_state) >>= λ next.
          if is_active_execution next.to_state then pure true else rest next)
      else pure true

  abbrev pub complete_task : TaskMessage → Action (Unit {0})
  complete_task message = do
    t ← now
    _ ← update_task message.task_id TaskStatus.completed none none (some t)
    pure tt

  -- `if task_id:`
  abbrev pub complete_named_task : TaskMessage → Action (Unit {0})
  complete_named_task message = if message.task_id =str= "" then pure tt else complete_task message

  abbrev pub stage_request : DeliveryContext → TaskHandlerResult → String → TransitionRequest
  stage_request ctx result reason = record {
    workflow_id = ctx.delivery.message.workflow_id;
    expected_state = expected_state_for_task ctx.task_type;
    signal = signal_of result;
    reason = reason;
    actor = none;
  }

  -- What `_commit_success_path` does when the claim was granted.
  unfoldable pub winner_path : DeliveryContext → TaskHandlerResult → Action (Unit {0})
  unfolding bridge update_task
  winner_path ctx result = do
    transition_result ←
        apply_transition repo config
          (stage_request ctx result (text_or result.reason "stage completed"))
    _ ← bridge bridge_fuel ctx.delivery.message transition_result
    complete_named_task ctx.delivery.message

  abbrev pub is_completed : TaskRecord → Bool
  is_completed task = elim task.status [ TaskStatus.completed ↦ true | _ ↦ false ]

  abbrev pub complete_if_open : TaskMessage → Option TaskRecord → Action (Unit {0})
  complete_if_open message none = pure tt
  complete_if_open message (some task) =
      if is_completed task then pure tt else complete_task message

  -- The handler of WorkflowConflictError on the loser's path, which returns or raises again.
  abbrev pub after_conflict : WorkflowState → Exception → Option WorkflowRecord → Action Bool
  after_conflict expected_post e none = raise e
  after_conflict expected_post e (some w) =
      if state_eq w.state expected_post then pure false else raise e

  -- The `try` of the loser's path: whether the transition was applied.
  abbrev pub apply_again : DeliveryContext → TaskHandlerResult → WorkflowState → Action Bool
  apply_again ctx result expected_post =
      except_conflict
        (apply_transition repo config (stage_request ctx result "scenario_c_loser") >>= λ _.
          pure true)
        (λ e. get_workflow ctx.delivery.message.workflow_id >>= after_conflict expected_post e)

  abbrev pub complete_applied : TaskMessage → Bool → Action (Unit {0})
  complete_applied message false = pure tt
  complete_applied message true = get_task message.task_id >>= complete_if_open message

  abbrev pub try_again :
      DeliveryContext → TaskHandlerResult → WorkflowState → WorkflowState → Action (Unit {0})
  try_again ctx result state expected_post =
      if state_eq state expected_post
      then pure tt
      else (apply_again ctx result expected_post >>= complete_applied ctx.delivery.message)

  -- The loser's path from the row on: the workflow is where the winner should have brought it, or
  -- the transition is tried once more.
  unfoldable pub loser_path_of :
      DeliveryContext → TaskHandlerResult → Option WorkflowRecord → Action (Unit {0})
  unfolding get_workflow get_task update_task state_eq post_transition_state
  loser_path_of ctx result none = pure tt
  loser_path_of ctx result (some w) =
      or_raise (post_transition_state ctx.task_type (signal_of result))
      >>= try_again ctx result w.state

  -- `_scenario_c_loser_path`
  unfoldable pub loser_path : DeliveryContext → TaskHandlerResult → Action (Unit {0})
  unfolding loser_path_of
  loser_path ctx result = do
    found ← get_workflow ctx.delivery.message.workflow_id
    loser_path_of ctx result found

  abbrev pub after_claim :
      DeliveryContext → TaskHandlerResult → IdempotencyPhase → Action (Unit {0})
  after_claim ctx result IdempotencyPhase.duplicate_rejected = loser_path ctx result
  after_claim ctx result _ = winner_path ctx result

  abbrev pub claim_spec : DeliveryContext → TaskHandlerResult → IdempotencyInsertSpec
  claim_spec ctx result = record {
    idempotency_key = ctx.idempotency_key;
    workflow_id = ctx.delivery.message.workflow_id;
    task_id = ctx.delivery.message.task_id;
    result_artifact_id = result.result_artifact_id;
  }

  abbrev pub commit_completed : DeliveryContext → TaskHandlerResult → Action (Unit {0})
  commit_completed ctx result = do
    claim ← claim_completion (claim_spec ctx result)
    after_claim ctx result claim.phase

  -- `_commit_success_path`
  unfoldable pub commit_success_path : DeliveryContext → TaskHandlerResult → Action (Unit {0})
  unfolding claim_completion winner_path loser_path
  commit_success_path ctx result =
      if is_success result.outcome
      then commit_completed ctx result
      else raise (
          task_execution ctx.delivery.message.workflow_id ctx.delivery.message.task_id ctx.task_type
            (is_retryable result.outcome))
