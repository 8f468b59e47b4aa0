-- ===== src/Workflow/Engine/Initiate.antt =====
-- Inversion of `initiate_workflow` of workflow/engine.py: what a call that returns has found and done.
use agentic_cartoon_demo.Base.{
  ◌≡◌, ap, sym, subst, subst₂, not, String, Option, none, some, find, inl, inr, is_some,
  Option-cases, find-append, str_refl, ◌=str=◌, strip, ◌∷◌, [], Bool-cases, arith,
}
use agentic_cartoon_demo.Config.{TaskType}
use agentic_cartoon_demo.Exceptions.{ok, workflow_conflict, runtime_error}
use agentic_cartoon_demo.Persistence.Types.{WorkflowRecord, WorkflowTransitionRecord}
use agentic_cartoon_demo.Persistence.Session.{Db, ◌>>=◌, ◌>>◌, raise_unless}
use agentic_cartoon_demo.Persistence.Session.Laws.{>>=-ok, guard-ok}
use agentic_cartoon_demo.Persistence.WorkflowRepo.{
  workflow_key, Repo, get_workflow, create_workflow,
}
use agentic_cartoon_demo.Persistence.WorkflowRepo.Effects.{Created, create_workflow-Created}
use agentic_cartoon_demo.Workflow.Types.{WorkflowState}
use agentic_cartoon_demo.Workflow.OutboxBuilder.{OutboxBuildResult, build}
use agentic_cartoon_demo.Workflow.OutboxBuilder.Effects.{Quiet, Quiet-trans, build-Fits}
use agentic_cartoon_demo.Workflow.Executor.{InitiateWorkflowResult, execute_initiate}
use agentic_cartoon_demo.Workflow.Engine.{
  InitiateWorkflowRequest, build_transition, initiate_workflow, allocate, actor_of,
  start_collecting,
}
use agentic_cartoon_demo.Workflow.Engine.Inversion.{execute_initiate-ok}
use agentic_cartoon_demo.Workflow.Engine.Effects.{
  Audits, build_transition-Audits, Change, perform-Change,
}

-- A call that returned has added a row in CREATED under an identifier that was free, and has moved it
-- on to COLLECTING with the task COLLECT.
pub record Initiated (db after : Db) (r : InitiateWorkflowResult) : Type 0 where
  pub before : Db
  pub middle : Db
  pub w : WorkflowRecord
  pub w' : WorkflowRecord
  pub t : WorkflowTransitionRecord
  pub quiet : Quiet db before
  pub created : Created before middle w.workflow_id WorkflowState.created w
  pub change : Change middle after w w' t WorkflowState.collecting none none (some TaskType.collect)
  pub same_id : r.workflow_id ≡ w.workflow_id
  pub same_version : r.state_version ≡ w'.state_version
  pub same_transition : r.transition ≡ t

allocate-Quiet :
    (request : Option InitiateWorkflowRequest) (db : Db) {id : String} {after : Db}
    → allocate request db ≡ (ok id, after)
    → Quiet db after
unfolding allocate
allocate-Quiet none db h = cc
allocate-Quiet (some request) db h = elim (Option-cases request.workflow_id) [
  | inl e ↦ ground arith
  | inr (given, e) ↦ elim (Bool-cases (strip given =str= "")) [
    | inl blank ↦ absurd (ground arith)
    | inr named ↦ ground arith
  ]
]

-- An added row is found, when its identifier was free.
Created-found :
    (db after : Db) (id : String) (s : WorkflowState) (w : WorkflowRecord)
    → Created db after id s w
    → find workflow_key w.workflow_id after.workflows ≡ some w
unfolding find
Created-found db after id s w c =
    let free = subst (λ i. find workflow_key i db.workflows ≡ none) (sym c.id) c.fresh in
    let rows = ap (λ (d : Db). d.workflows) c.stored in
    ground (
      arith,
      rows,
      free,
      find-append workflow_key w.workflow_id db.workflows (w ∷ []),
      str_refl w.workflow_id,
    )

module _ (repo : Repo) where
  start_collecting-Change :
      (id : String) (actor : Option String) (w : WorkflowRecord) (db : Db)
      {r : InitiateWorkflowResult} {after : Db}
      → find workflow_key w.workflow_id db.workflows ≡ some w
      → w.workflow_id ≡ id
      → w.state ≡ WorkflowState.created
      → start_collecting repo id actor w db ≡ (ok r, after)
      → (w' : WorkflowRecord) × (t : WorkflowTransitionRecord) × Change db after w w' t
          WorkflowState.collecting none none
          (some TaskType.collect)
        × (r.workflow_id ≡ w.workflow_id)
        × (r.state_version ≡ w'.state_version)
        × (r.transition ≡ t)
  unfolding start_collecting
  start_collecting-Change id actor w db {after = after} found same_id initial h =
      let execute =
        λ (o : OutboxBuildResult) (t : WorkflowTransitionRecord). execute_initiate repo w t o in
      let audit =
        build_transition id WorkflowState.created WorkflowState.collecting "workflow_initiated"
          actor in
      let (o, s₁, h₁, k₁) =
        >>=-ok (build w TaskType.collect 1 1) (λ o. audit >>= λ t. execute o t) db h in
      let (t, s₂, h₂, k₂) = >>=-ok audit (λ t. execute o t) s₁ k₁ in
      let (fits, q₁) = build-Fits w TaskType.collect 1 1 db h₁ in
      let (audits, q₂) =
        build_transition-Audits id WorkflowState.created WorkflowState.collecting
          "workflow_initiated" actor s₁ h₂ in
      let (q, run, report) = execute_initiate-ok repo w t s₂ o k₂ in
      let (change, same) =
        perform-Change repo w WorkflowState.collecting none none t (some TaskType.collect) (some o)
          db s₂ found (Quiet-trans db s₁ s₂ q₁ q₂) fits
          (subst₂ (λ i s. Audits t i s WorkflowState.collecting) (sym same_id) (sym initial) audits)
          run in
      (q.0, t, change, cc report, cc report, cc (report, same))

  initiated :
      (db before middle after : Db) (id : String) (w : WorkflowRecord) (actor : Option String)
      {r : InitiateWorkflowResult}
      → Quiet db before
      → Created before middle id WorkflowState.created w
      → start_collecting repo id actor w middle ≡ (ok r, after)
      → Initiated db after r
  initiated db before middle after id w actor q c h =
      let found = Created-found before middle id WorkflowState.created w c in
      let (w', t, change, e₁, e₂, e₃) =
        start_collecting-Change id actor w middle found c.id c.initial h in
      record {
        before = before;
        middle = middle;
        w = w;
        w' = w';
        t = t;
        quiet = q;
        created = subst (λ i. Created before middle i WorkflowState.created w) (sym c.id) c;
        change = change;
        same_id = e₁;
        same_version = e₂;
        same_transition = e₃;
      }

  pub initiate_workflow-Initiated :
      (request : Option InitiateWorkflowRequest) (db : Db) {r : InitiateWorkflowResult} {after : Db}
      → initiate_workflow repo request db ≡ (ok r, after)
      → Initiated db after r
  unfolding initiate_workflow get_workflow
  initiate_workflow-Initiated request db {after = after} h =
      let rest = λ (id : String).
        create_workflow id WorkflowState.created >>= start_collecting repo id (actor_of request) in
      let guarded = λ (id : String). get_workflow id >>= λ existing.
      raise_unless (not (is_some existing)) (workflow_conflict id) >> rest id in
      let (active, h₁) =
        guard-ok db.in_transaction runtime_error (allocate request >>= guarded) db h in
      let (id, s₁, h₂, k₂) = >>=-ok (allocate request) guarded db h₁ in
      let (new, h₃) =
        guard-ok (not (is_some (find workflow_key id s₁.workflows))) (workflow_conflict id)
          (rest id) s₁ k₂ in
      let (w, s₂, h₄, k₄) =
        >>=-ok (create_workflow id WorkflowState.created)
          (start_collecting repo id (actor_of request)) s₁ h₃ in
      initiated db s₁ s₂ after id w (actor_of request) (allocate-Quiet request db h₂)
        (create_workflow-Created id WorkflowState.created s₁ h₄) k₄
