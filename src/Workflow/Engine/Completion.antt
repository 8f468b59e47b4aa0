-- ===== src/Workflow/Engine/Completion.antt =====
-- Which transitions of workflow/engine.py go through.
use agentic_cartoon_demo.Base.{
  ℕ, ◌+◌, ◌≤◌, ◌≡◌, ◌≢◌, refl, ap, ◌∙◌, sym, subst, ◌⊎◌, inl, inr, Bool, true, false, Bool-cases,
  String, Option, none, some, find, find-key, arith, not,
}
use agentic_cartoon_demo.Config.{TaskType, WorkflowConfig}
use agentic_cartoon_demo.Exceptions.{ok, workflow_conflict, invalid_transition}
use agentic_cartoon_demo.Persistence.Types.{WorkflowRecord, WorkflowTransitionRecord}
use agentic_cartoon_demo.Persistence.Session.{Db, pure, ◌>>=◌, ◌>>◌, raise_unless}
use agentic_cartoon_demo.Persistence.Session.Laws.{>>=-step, guard-step}
use agentic_cartoon_demo.Persistence.WorkflowRepo.{workflow_key, Repo, postgres, workflow_fake}
use agentic_cartoon_demo.Persistence.WorkflowRepo.Progress.{
  Accepts, is_ok, Returns, returned, >>=-Returns,
}
use agentic_cartoon_demo.Persistence.ArtifactRepo.{get_active_artifact}
use agentic_cartoon_demo.Workflow.Types.{
  WorkflowState, state_eq, state_eq_iff, is_terminal, is_transient,
}
use agentic_cartoon_demo.Workflow.TransitionTable.{TransitionDecision, lookup}
use agentic_cartoon_demo.Workflow.OutboxBuilder.{
  OutboxBuildResult, outbox_build, resolve_for_task, build, build_for_decision,
}
use agentic_cartoon_demo.Workflow.TransitionTable.Graph.{
  Edge, Edge-is_transient, lookup_iff, lookup-from, lookup-Enqueues_lem,
}
use agentic_cartoon_demo.Workflow.Engine.{
  TransitionRequest, build_transition, carry_out, move_workflow, apply_transition, with_reason,
  new_revision, relabel,
}
use agentic_cartoon_demo.Workflow.Engine.Inversion.{located-step}
use agentic_cartoon_demo.Workflow.Engine.Outcomes.{apply_transition-Applied}
use agentic_cartoon_demo.Workflow.Engine.Progress.{IsFresh, IsClear, IsClear-kept, perform-Returns}
use agentic_cartoon_demo.Workflow.Executor.{
  transition_result, TransitionResult, perform, execute_transition,
}

resolve_for_task-run :
    (id : String) (type : TaskType) (increment : Bool) (db : Db)
    → (v : ℕ) × (resolve_for_task id type increment db ≡ (ok v, db))
unfolding resolve_for_task get_active_artifact
resolve_for_task-run id TaskType.collect increment db = (1, refl)
resolve_for_task-run id TaskType.select_topic increment db = (1, refl)
resolve_for_task-run id TaskType.generate_scenario increment db = (_, refl)
resolve_for_task-run id TaskType.review_scenario increment db = (_, refl)

-- What is built goes under an identifier that the environment has just given.
build_for_decision-run :
    (w : WorkflowRecord) (type : Option TaskType) (increment : Bool) (db : Db)
    → (o : Option OutboxBuildResult) × (n : ℕ) × (build_for_decision w type increment db
        ≡ (ok o, record db { requests = n }))
      × (db.requests ≤ n)
      × (IsFresh db → IsClear db w.workflow_id o)
unfolding build_for_decision build outbox_build
build_for_decision-run w none increment db = (none, db.requests, refl, omega arith, λ _. tt)
build_for_decision-run w (some type) increment db =
    let (version, resolved) = resolve_for_task-run w.workflow_id type increment db in
    let n = db.requests in
    (
      some (
          outbox_build w.workflow_id type version 1 (db.environment.uuid4 (n + 1))
            (db.environment.utcnow n)),
      n + 1 + 1,
      >>=-step (resolve_for_task w.workflow_id type increment)
          (λ v. build w type v 1 >>= λ result. pure (some result)) db resolved refl,
      omega arith,
      λ fresh. (
        refl,
        fresh.payload_ids (n + 1) (omega arith),
        fresh.task_ids (n + 1) (omega arith),
        refl,
      ),
    )

module _ (repo : Repo) (config : WorkflowConfig) (request : TransitionRequest) (db : Db)
    (active : db.in_transaction ≡ true) (fresh : IsFresh db) where
  execute_transition-Returns :
      (w : WorkflowRecord) (d : TransitionDecision) (t : WorkflowTransitionRecord)
      (o : Option OutboxBuildResult) (count : Option ℕ) (mid : Db)
      → Returns (perform repo w d.to_state d.set_failure_reason count t o) mid
      → Returns (execute_transition repo w d t o count) mid
  unfolding execute_transition
  execute_transition-Returns w d t o count mid h =
      >>=-Returns (perform repo w d.to_state d.set_failure_reason count t o)
        (λ written. pure (written.0, transition_result w d written)) mid h (λ _ _. refl)

  carry_out-Returns :
      (w : WorkflowRecord) (d : TransitionDecision)
      → find workflow_key request.workflow_id db.workflows ≡ some w
      → Accepts repo (new_revision w d)
      → Returns (carry_out repo config w request d) db
  unfolding carry_out build_transition
  carry_out-Returns w d found accepts =
      let id = find-key workflow_key request.workflow_id db.workflows w found in
      let count = new_revision w d in
      let (o, n, built, later, clear) =
        build_for_decision-run w d.outbox_task_type d.increment_logical_version db in
      let t : WorkflowTransitionRecord = record {
        transition_id = db.environment.uuid4 (n + 1);
        workflow_id = request.workflow_id;
        from_state = w.state;
        to_state = d.to_state;
        reason = request.reason;
        occurred_at = db.environment.utcnow n;
        actor = request.actor;
      } in
      let mid = record db { requests = n + 1 + 1 } in
      let run =
        perform-Returns repo w d.to_state d.set_failure_reason count t o mid active
          (ap (λ i. find workflow_key i db.workflows) id ∙ found) accepts
          (fresh.transition_ids (n + 1) (omega (arith, later))) (sym id)
          (λ m after. fresh.outbox_ids m (omega (arith, later, after)))
          (IsClear-kept db mid w.workflow_id o refl refl (clear fresh)) in
      ap (λ p. is_ok p.0)
        (>>=-step (build_for_decision w d.outbox_task_type d.increment_logical_version)
          (λ o.
            build_transition request.workflow_id w.state d.to_state request.reason request.actor
            >>= λ t. execute_transition repo w d t o count >>= λ result. pure result.1)
          db built refl)
      ∙ >>=-Returns (execute_transition repo w d t o count) (λ result. pure result.1) mid
          (execute_transition-Returns w d t o count mid run) (λ _ _. refl)

transient-running : (s : WorkflowState) → is_transient s ≡ true → is_terminal s ≡ false
transient-running s h = elim (Bool-cases (is_terminal s)) [
  | inl over ↦ absurd (ground (arith, over))
  | inr running ↦ running
]

-- What a move by an edge of the diagram comes to.
pub record Completed (repo : Repo) (config : WorkflowConfig) (request : TransitionRequest)
    (w : WorkflowRecord) (to : WorkflowState) (db : Db) : Type 0 where
  pub result : TransitionResult
  pub after : Db
  pub runs : apply_transition repo config request db ≡ (ok result, after)
  pub from_ : result.from_state ≡ w.state
  pub to_ : result.to_state ≡ to
  pub version_ : result.state_version ≡ w.state_version + 1

-- The keyword of the revision count is given for a move to REVISION_REQUIRED only.
Accepts-revision :
    (repo : Repo) (w : WorkflowRecord) (d : TransitionDecision)
    → (repo ≡ workflow_fake) ⊎ (d.increment_revision_count ≡ false)
    → Accepts repo (new_revision w d)
Accepts-revision workflow_fake w d h = tt
Accepts-revision postgres w d (inl e) = cc
Accepts-revision postgres w d (inr e) = subst (Accepts postgres) (sym (same w d e)) tt
  where
    same :
        (w : WorkflowRecord) (d : TransitionDecision)
        → d.increment_revision_count ≡ false
        → new_revision w d ≡ none
    same w d e = ground (arith, e)

module _ (repo : Repo) (config : WorkflowConfig) (request : TransitionRequest) (db : Db) where
  completed :
      (w : WorkflowRecord) (to : WorkflowState) (d : TransitionDecision)
      → find workflow_key request.workflow_id db.workflows ≡ some w
      → lookup w.state request.signal w.revision_count config.max_scenario_revisions ≡ ok d
      → d.to_state ≡ to
      → Returns (apply_transition repo config request) db
      → Completed repo config request w to db
  completed w to d found decided to_ h =
      let (r, run) = returned (apply_transition repo config request) db h in
      let a = apply_transition-Applied repo config request db run in
      let same : a.w ≡ w = cc (a.found, found) in
      let limit = config.max_scenario_revisions in
      let from = (lookup-from a.w.state request.signal a.w.revision_count limit a.d a.decided).0 in
      let there =
        ap (λ (x : WorkflowRecord). lookup x.state request.signal x.revision_count limit) same in
      let chosen : a.d ≡ d = cc (a.decided, decided, there) in
      record {
        result = r;
        after = (apply_transition repo config request db).1;
        runs = run;
        from_ =
            ap (λ (x : TransitionResult). x.from_state) a.reported
            ∙ from
            ∙ ap (λ (x : WorkflowRecord). x.state) same;
        to_ =
            ap (λ (x : TransitionResult). x.to_state) a.reported
            ∙ ap (λ (x : TransitionDecision). x.to_state) chosen
            ∙ to_;
        version_ =
            ap (λ (x : TransitionResult). x.state_version) a.reported
            ∙ a.change.moved.new_version
            ∙ ap (λ (x : WorkflowRecord). x.state_version + 1) same;
      }

  move_workflow-Returns :
      (w : WorkflowRecord) (d : TransitionDecision)
      → db.in_transaction ≡ true
      → IsFresh db
      → find workflow_key request.workflow_id db.workflows ≡ some w
      → w.state ≡ request.expected_state
      → is_terminal w.state ≡ false
      → lookup w.state request.signal w.revision_count config.max_scenario_revisions ≡ ok d
      → Accepts repo (new_revision w d)
      → Returns (move_workflow repo config request w) db
  unfolding move_workflow
  move_workflow-Returns w d active fresh found expected running decided accepts =
      let found_state =
        lookup w.state request.signal w.revision_count config.max_scenario_revisions in
      let error = invalid_transition request.workflow_id w.state request.signal in
      let go =
        λ (d : TransitionDecision). carry_out repo config w request (with_reason request d) in
      let rest = relabel request.workflow_id w.state request.signal found_state >>= go in
      ap (λ p. is_ok p.0)
        (guard-step (state_eq w.state request.expected_state)
            (workflow_conflict request.workflow_id)
            (raise_unless (not (is_terminal w.state)) error >> rest) db
            ((state_eq_iff w.state request.expected_state).1 expected)
          ∙ guard-step (not (is_terminal w.state)) error rest db (ap not running)
          ∙ ap (λ r. (relabel request.workflow_id w.state request.signal r >>= go) db) decided)
      ∙ carry_out-Returns repo config request db active fresh w (with_reason request d) found
          accepts

  -- Inside a transaction, with new identifiers to come, `apply_transition` returns for a row in the
  -- expected state that the diagram lets move under the signal, except that the PostgreSQL
  -- repository cannot be asked for a move to REVISION_REQUIRED; its result names the two states, and
  -- a version that is one more than the row's.
  pub apply_transition-Completed :
      (w : WorkflowRecord) (to : WorkflowState)
      → db.in_transaction ≡ true
      → IsFresh db
      → find workflow_key request.workflow_id db.workflows ≡ some w
      → w.state ≡ request.expected_state
      → Edge w.revision_count config.max_scenario_revisions w.state request.signal to
      → (repo ≡ workflow_fake) ⊎ (to ≢ WorkflowState.revision_required)
      → Completed repo config request w to db
  unfolding apply_transition
  apply_transition-Completed w to active fresh found expected edge able =
      let limit = config.max_scenario_revisions in
      let (d, decided, to_) =
        (lookup_iff w.state request.signal w.revision_count limit to).1 edge in
      let counts =
        (lookup-Enqueues_lem w.state request.signal w.revision_count limit d decided).1 in
      let able' : (repo ≡ workflow_fake) ⊎ (d.increment_revision_count ≡ false) = elim able [
        | inl e ↦ inl e
        | inr other ↦ elim (Bool-cases d.increment_revision_count) [
          | inl more ↦ absurd (other (sym to_ ∙ counts.0 more))
          | inr none_ ↦ inr none_
        ]
      ] in
      completed w to d found decided to_ (
        ap (λ p. is_ok p.0)
          (located-step request.workflow_id (move_workflow repo config request) db w active found)
        ∙ move_workflow-Returns w d active fresh found expected
            (transient-running w.state (Edge-is_transient edge)) decided
            (Accepts-revision repo w d able'))
