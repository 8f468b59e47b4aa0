-- ===== src/Workflow/Engine/Frame.antt =====
-- workflow/engine.py: the tables that `apply_transition` leaves alone, even when it raises.
use agentic_cartoon_demo.Base.{
  ℕ, ◌≡◌, refl, ◌∙◌, Bool, true, false, not, String, Option, none, some, find, arith, ◌=str=◌,
}
use agentic_cartoon_demo.Config.{TaskType, WorkflowConfig}
use agentic_cartoon_demo.Exceptions.{
  Exception, Result, ok, err, workflow_conflict, invalid_transition, runtime_error,
  persistence_transaction, persistence_validation,
}
use agentic_cartoon_demo.Persistence.Types.{
  JsonValue, WorkflowRecord, WorkflowTransitionRecord, TaskRecord, TaskStatus, TaskPayload,
  OutboxInsertSpec,
}
use agentic_cartoon_demo.Persistence.Session.{Db, Action, pure, ◌>>=◌, ◌>>◌, raise_unless}
use agentic_cartoon_demo.Persistence.Session.Keeps.{Keeps, >>=-Keeps}
use agentic_cartoon_demo.Persistence.WorkflowRepo.{
  Repo, postgres, workflow_fake, get_workflow, call_update_workflow_state, append_transition,
  create_task, write_task, insert_payload, insert_task, update_task, workflow_key, payload_row,
  task_payload_ref_kind,
}
use agentic_cartoon_demo.Persistence.OutboxRepo.{insert}
use agentic_cartoon_demo.Persistence.ArtifactRepo.{get_active_artifact, list_artifacts}
use agentic_cartoon_demo.Workflow.Types.{WorkflowState, state_eq, is_terminal}
use agentic_cartoon_demo.Workflow.TransitionTable.{TransitionDecision, lookup}
use agentic_cartoon_demo.Workflow.OutboxBuilder.{
  OutboxTaskSpec, OutboxBuildResult, resolve_for_task, build, build_for_decision,
}
use agentic_cartoon_demo.Workflow.Executor.{
  translated, enqueue, perform, execute_transition, transition_result, Written, TransitionResult,
}
use agentic_cartoon_demo.Workflow.Engine.{
  TransitionRequest, build_transition, found_or_raise, relabel, with_reason, new_revision,
  carry_out, move_workflow, apply_transition,
}

-- The leases and the completion records are the same, and whether the session is in a transaction.
abbrev pub SameCore : Db → Db → Type 0
SameCore db after =
    (after.task_leases ≡ db.task_leases)
    × (after.idempotency ≡ db.idempotency)
    × (after.in_transaction ≡ db.in_transaction)

pub SameCore-refl : (db : Db) → SameCore db db
SameCore-refl db = (refl, refl, refl)

pub SameCore-trans : (a b c : Db) → SameCore a b → SameCore b c → SameCore a c
SameCore-trans a b c h k = (k.0 ∙ h.0, k.1 ∙ h.1, k.2 ∙ h.2)

pub >>=-Same {ℓ κ} :
    {A : Type ℓ} {B : Type κ} (m : Action A) (f : A → Action B)
    → Keeps SameCore m
    → ((a : A) → Keeps SameCore (f a))
    → Keeps SameCore (m >>= f)
>>=-Same = >>=-Keeps SameCore SameCore-refl SameCore-trans

update-Same :
    (repo : Repo) (id : String) (version : ℕ) (state : WorkflowState) (reason : Option String)
    (count : Option ℕ)
    → Keeps SameCore (call_update_workflow_state repo id version state reason count)
unfolding call_update_workflow_state
update-Same postgres id version state reason none db = ground arith
update-Same postgres id version state reason (some n) db = (refl, refl, refl)
update-Same workflow_fake id version state reason count db = ground arith

append-Same : (t : WorkflowTransitionRecord) → Keeps SameCore (append_transition t)
unfolding append_transition
append-Same t db = ground arith

pub guard-Same {ℓ} :
    {A : Type ℓ} (b : Bool) (e : Exception) (m : Action A)
    → Keeps SameCore m
    → Keeps SameCore (raise_unless b e >> m)
guard-Same true e m h = h
guard-Same false e m h = SameCore-refl

payload-Same : (p : TaskPayload) → Keeps SameCore (insert_payload p)
unfolding insert_payload
payload-Same p db = ground arith

insert_task-Same : (task : TaskRecord) → Keeps SameCore (insert_task task)
unfolding insert_task
insert_task-Same task db = ground arith

write_task-Same : (task : TaskRecord) (p : TaskPayload) → Keeps SameCore (write_task task p)
unfolding write_task
write_task-Same task p =
    >>=-Same (insert_payload p) (λ _. insert_task task >> pure task) (payload-Same p)
      (λ _.
        >>=-Same (insert_task task) (λ _. pure task) (insert_task-Same task) (λ _. SameCore-refl))

create_task-Same :
    (task : TaskRecord) (payload : Option JsonValue) → Keeps SameCore (create_task task payload)
unfolding create_task
create_task-Same task payload =
    let write = write_task task (payload_row task payload) in
    let check =
      raise_unless (task.payload_reference.ref_kind =str= task_payload_ref_kind)
        persistence_validation in
    λ db.
      guard-Same db.in_transaction persistence_transaction (check >> write)
        (guard-Same (task.payload_reference.ref_kind =str= task_payload_ref_kind)
          persistence_validation write (write_task-Same task (payload_row task payload)))
        db

insert-Same : (spec : OutboxInsertSpec) → Keeps SameCore (insert spec)
unfolding insert
insert-Same spec db = ground arith

pub update_task-Same :
    (id : String) (status : TaskStatus) (attempt : Option ℕ) (reason : Option String)
    (completed_at : Option ℕ)
    → Keeps SameCore (update_task id status attempt reason completed_at)
unfolding update_task
update_task-Same id status attempt reason completed_at db = ground arith

resolve-Same :
    (id : String) (type : TaskType) (increment : Bool)
    → Keeps SameCore (resolve_for_task id type increment)
unfolding resolve_for_task get_active_artifact list_artifacts
resolve-Same id TaskType.collect increment db = (refl, refl, refl)
resolve-Same id TaskType.select_topic increment db = (refl, refl, refl)
resolve-Same id TaskType.generate_scenario increment db = (refl, refl, refl)
resolve-Same id TaskType.review_scenario increment db = (refl, refl, refl)

build-Same :
    (w : WorkflowRecord) (type : Option TaskType) (increment : Bool)
    → Keeps SameCore (build_for_decision w type increment)
unfolding build_for_decision build
build-Same w none increment = SameCore-refl
build-Same w (some type) increment =
    >>=-Same (resolve_for_task w.workflow_id type increment)
      (λ n. build w type n 1 >>= λ result. pure (some result))
      (resolve-Same w.workflow_id type increment) (λ n db. (refl, refl, refl))

enqueue-Same : (o : Option OutboxBuildResult) → Keeps SameCore (enqueue o)
unfolding enqueue
enqueue-Same none = SameCore-refl
enqueue-Same (some o) =
    >>=-Same (create_task o.task_record (some o.payload_json))
      (λ _. insert o.outbox_insert >>= λ _. pure (some o.task_spec))
      (create_task-Same o.task_record (some o.payload_json))
      (λ _.
        >>=-Same (insert o.outbox_insert) (λ _. pure (some o.task_spec))
          (insert-Same o.outbox_insert) (λ _. SameCore-refl))

perform-Same :
    (repo : Repo) (w : WorkflowRecord) (state : WorkflowState) (reason : Option String)
    (count : Option ℕ) (t : WorkflowTransitionRecord) (o : Option OutboxBuildResult)
    → Keeps SameCore (perform repo w state reason count t o)
unfolding perform
perform-Same repo w state reason count t o =
    let update = call_update_workflow_state repo w.workflow_id w.state_version state reason count in
    let finish = λ (u : WorkflowRecord) (p : WorkflowTransitionRecord) (q : Option OutboxTaskSpec).
      pure {A = Written} (u, p, q) in
    let dispatch =
      λ (u : WorkflowRecord) (p : WorkflowTransitionRecord). enqueue o >>= finish u p in
    let audit = λ (u : WorkflowRecord). append_transition t >>= dispatch u in
    >>=-Same (translated w.workflow_id update) audit
      (update-Same repo w.workflow_id w.state_version state reason count)
      (λ u.
        >>=-Same (append_transition t) (dispatch u) (append-Same t)
          (λ p. >>=-Same (enqueue o) (finish u p) (enqueue-Same o) (λ q. SameCore-refl)))

module _ (repo : Repo) (config : WorkflowConfig) where
  carry_out-Same :
      (w : WorkflowRecord) (request : TransitionRequest) (d : TransitionDecision)
      → Keeps SameCore (carry_out repo config w request d)
  unfolding carry_out build_transition execute_transition
  carry_out-Same w request d =
      let transition =
        build_transition request.workflow_id w.state d.to_state request.reason request.actor in
      let execute = λ (o : Option OutboxBuildResult) (t : WorkflowTransitionRecord).
        execute_transition repo w d t o (new_revision w d) in
      let finish = λ (r : WorkflowRecord × TransitionResult). pure r.1 in
      let move =
        λ (o : Option OutboxBuildResult) (t : WorkflowTransitionRecord). execute o t >>= finish in
      let audit = λ (o : Option OutboxBuildResult). transition >>= move o in
      >>=-Same (build_for_decision w d.outbox_task_type d.increment_logical_version) audit
        (build-Same w d.outbox_task_type d.increment_logical_version)
        (λ o.
          >>=-Same transition (move o) (λ db. (refl, refl, refl))
            (λ t.
              >>=-Same (execute o t) finish
                (>>=-Same (perform repo w d.to_state d.set_failure_reason (new_revision w d) t o)
                  (λ written. pure (written.0, transition_result w d written))
                  (perform-Same repo w d.to_state d.set_failure_reason (new_revision w d) t o)
                  (λ written. SameCore-refl))
                (λ r. SameCore-refl)))

  decided-Same :
      (w : WorkflowRecord) (request : TransitionRequest) (r : Result TransitionDecision)
      → Keeps SameCore (
          relabel request.workflow_id w.state request.signal r >>= λ d.
          carry_out repo config w request (with_reason request d))
  decided-Same w request (ok d) = carry_out-Same w request (with_reason request d)
  decided-Same w request (err e) = SameCore-refl

  move_workflow-Same :
      (request : TransitionRequest) (w : WorkflowRecord)
      → Keeps SameCore (move_workflow repo config request w)
  unfolding move_workflow
  move_workflow-Same request w =
      let decide =
        relabel request.workflow_id w.state request.signal
          (lookup w.state request.signal w.revision_count config.max_scenario_revisions)
        >>= λ d. carry_out repo config w request (with_reason request d) in
      guard-Same (state_eq w.state request.expected_state) (workflow_conflict request.workflow_id)
        (raise_unless (not (is_terminal w.state))
            (invalid_transition request.workflow_id w.state request.signal)
          >> decide)
        (guard-Same (not (is_terminal w.state))
          (invalid_transition request.workflow_id w.state request.signal) decide
          (decided-Same w request
            (lookup w.state request.signal w.revision_count config.max_scenario_revisions)))

  found-Same :
      (request : TransitionRequest) (o : Option WorkflowRecord)
      → Keeps SameCore
          (found_or_raise request.workflow_id o >>= λ w. move_workflow repo config request w)
  found-Same request none = SameCore-refl
  found-Same request (some w) = move_workflow-Same request w

  -- Whether it returns or raises.
  pub apply_transition-Same :
      (request : TransitionRequest) → Keeps SameCore (apply_transition repo config request)
  unfolding apply_transition get_workflow
  apply_transition-Same request db =
      guard-Same db.in_transaction runtime_error
        (λ d.
          (found_or_raise request.workflow_id (find workflow_key request.workflow_id d.workflows)
              >>= λ w. move_workflow repo config request w)
            d)
        (λ d. found-Same request (find workflow_key request.workflow_id d.workflows) d) db
