-- ===== src/Worker/Commit/Frame.antt =====
-- The tables that the commit of a task leaves alone after its claim: worker/loop.py.
use agentic_cartoon_demo.Base.{
  ℕ, zero, suc, refl, Bool, true, false, String, Option, none, some, if◌then◌else◌, ◌=str=◌,
}
use agentic_cartoon_demo.Config.{WorkflowConfig}
use agentic_cartoon_demo.Exceptions.{Exception, Result, ok, err, workflow_conflict}
use agentic_cartoon_demo.Persistence.Types.{TaskRecord, TaskStatus, WorkflowRecord}
use agentic_cartoon_demo.Persistence.Session.{Action, pure, raise, ◌>>=◌, now}
use agentic_cartoon_demo.Persistence.Session.Keeps.{Keeps}
use agentic_cartoon_demo.Persistence.WorkflowRepo.{Repo, update_task, get_workflow, get_task}
use agentic_cartoon_demo.Workflow.Types.{WorkflowState, state_eq}
use agentic_cartoon_demo.Workflow.Executor.{TransitionResult}
use agentic_cartoon_demo.Workflow.Engine.{apply_transition}
use agentic_cartoon_demo.Workflow.Engine.Frame.{
  SameCore, SameCore-refl, SameCore-trans, >>=-Same, update_task-Same, apply_transition-Same,
}
use agentic_cartoon_demo.Worker.Types.{
  TaskHandlerResult, DeliveryContext, TaskMessage, IdempotencyPhase,
}
use agentic_cartoon_demo.Worker.StateGuard.{post_transition_state}
use agentic_cartoon_demo.Worker.Commit.{
  bridge, bridge_fuel, bridge_request, needs_bridge, is_active_execution, complete_task,
  complete_named_task, stage_request, signal_of, winner_path, is_completed, complete_if_open,
  on_conflict, after_conflict, apply_again, complete_applied, try_again, or_raise, loser_path_of,
  loser_path, after_claim,
}

if-Same {ℓ} :
    {A : Type ℓ} (c : Bool) (m n : Action A)
    → Keeps SameCore m
    → Keeps SameCore n
    → Keeps SameCore (if c then m else n)
if-Same true m n h k = h
if-Same false m n h k = k

module _ (repo : Repo) (config : WorkflowConfig) where
  bridge-Same :
      (fuel : ℕ) (message : TaskMessage) (current : TransitionResult)
      → Keeps SameCore (bridge repo config fuel message current)
  unfolding bridge
  bridge-Same zero message current = SameCore-refl
  bridge-Same (suc fuel) message current =
      let request = bridge_request repo config message current.to_state in
      let rest = λ (next : TransitionResult).
        if is_active_execution next.to_state
        then pure true
        else bridge repo config fuel message next in
      if-Same (needs_bridge current) (apply_transition repo config request >>= rest) (pure true)
        (>>=-Same (apply_transition repo config request) rest
          (apply_transition-Same repo config request)
          (λ next.
            if-Same (is_active_execution next.to_state) (pure true)
              (bridge repo config fuel message next) SameCore-refl (bridge-Same fuel message next)))
        SameCore-refl

  complete_task-Same : (message : TaskMessage) → Keeps SameCore (complete_task repo config message)
  complete_task-Same message =
      let write = λ (t : ℕ). update_task message.task_id TaskStatus.completed none none (some t) in
      >>=-Same now (λ t. write t >>= λ _. pure tt) (λ db. (refl, refl, refl))
        (λ t.
          >>=-Same (write t) (λ _. pure tt)
            (update_task-Same message.task_id TaskStatus.completed none none (some t))
            (λ _. SameCore-refl))

  winner_path-Same :
      (ctx : DeliveryContext) (result : TaskHandlerResult)
      → Keeps SameCore (winner_path repo config ctx result)
  unfolding winner_path
  winner_path-Same ctx result =
      let message = ctx.delivery.message in
      let move = apply_transition repo config _ in
      let finish = complete_named_task repo config message in
      >>=-Same move (λ r. bridge repo config bridge_fuel message r >>= λ _. finish)
        (apply_transition-Same repo config _)
        (λ r.
          >>=-Same (bridge repo config bridge_fuel message r) (λ _. finish)
            (bridge-Same bridge_fuel message r)
            (λ _.
              if-Same (message.task_id =str= "") (pure tt) (complete_task repo config message)
                SameCore-refl (complete_task-Same message)))

  complete_if_open-Same :
      (message : TaskMessage) (task : Option TaskRecord)
      → Keeps SameCore (complete_if_open repo config message task)
  complete_if_open-Same message none = SameCore-refl
  complete_if_open-Same message (some task) =
      if-Same (is_completed repo config task) (pure tt) (complete_task repo config message)
        SameCore-refl (complete_task-Same message)

  complete_applied-Same :
      (message : TaskMessage) (applied : Bool)
      → Keeps SameCore (complete_applied repo config message applied)
  unfolding get_task
  complete_applied-Same message false = SameCore-refl
  complete_applied-Same message true =
      >>=-Same (get_task message.task_id) (complete_if_open repo config message) SameCore-refl
        (complete_if_open-Same message)

  after_conflict-Same :
      (s : WorkflowState) (e : Exception) (found : Option WorkflowRecord)
      → Keeps SameCore (after_conflict repo config s e found)
  after_conflict-Same s e none = SameCore-refl
  after_conflict-Same s e (some w) =
      if-Same (state_eq w.state s) (pure false) (raise e) SameCore-refl SameCore-refl

  on_conflict-Same :
      (id : String) (s : WorkflowState) (r : Result Bool)
      → Keeps SameCore (on_conflict (λ e. get_workflow id >>= after_conflict repo config s e) r)
  unfolding get_workflow
  on_conflict-Same id s (err (workflow_conflict x)) =
      >>=-Same (get_workflow id) (after_conflict repo config s (workflow_conflict x)) SameCore-refl
        (after_conflict-Same s (workflow_conflict x))
  on_conflict-Same id s (ok b) = SameCore-refl
  on_conflict-Same id s (err e) = SameCore-refl

  module _ (ctx : DeliveryContext) (result : TaskHandlerResult) where
    apply_again-Same : (s : WorkflowState) → Keeps SameCore (apply_again repo config ctx result s)
    apply_again-Same s db =
        let request = stage_request repo config ctx result "scenario_c_loser" in
        let move = apply_transition repo config request >>= λ _. pure true in
        SameCore-trans db (move db).1 (apply_again repo config ctx result s db).1
          (>>=-Same (apply_transition repo config request) (λ _. pure true)
            (apply_transition-Same repo config request) (λ _. SameCore-refl) db)
          (on_conflict-Same ctx.delivery.message.workflow_id s (move db).0 (move db).1)

    try_again-Same :
        (now_in s : WorkflowState) → Keeps SameCore (try_again repo config ctx result now_in s)
    try_again-Same now_in s =
        let again = apply_again repo config ctx result s in
        let finish = complete_applied repo config ctx.delivery.message in
        if-Same (state_eq now_in s) (pure tt) (again >>= finish) SameCore-refl
          (>>=-Same again finish (apply_again-Same s) (complete_applied-Same ctx.delivery.message))

    expected-Same :
        (now_in : WorkflowState) (r : Result WorkflowState)
        → Keeps SameCore (or_raise r >>= try_again repo config ctx result now_in)
    expected-Same now_in (ok s) = try_again-Same now_in s
    expected-Same now_in (err e) = SameCore-refl

    loser_path_of-Same :
        (found : Option WorkflowRecord)
        → Keeps SameCore (loser_path_of repo config ctx result found)
    unfolding loser_path_of
    loser_path_of-Same none = SameCore-refl
    loser_path_of-Same (some w) =
        expected-Same w.state (post_transition_state ctx.task_type (signal_of result))

    -- Whether it returns or raises.
    pub after_claim-Same :
        (phase : IdempotencyPhase) → Keeps SameCore (after_claim repo config ctx result phase)
    unfolding loser_path get_workflow
    after_claim-Same IdempotencyPhase.duplicate_rejected =
        >>=-Same (get_workflow ctx.delivery.message.workflow_id)
          (loser_path_of repo config ctx result) SameCore-refl loser_path_of-Same
    after_claim-Same _ = winner_path-Same ctx result
