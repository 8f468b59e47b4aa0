-- ===== src/Workflow/Engine/Approval.antt =====
-- Inversion of `apply_approval_action` of workflow/engine.py: what a call that returns has found and done.
use agentic_cartoon_demo.Base.{
  ◌≡◌, ◌∙◌, sym, subst, subst₂, String, ◌+str+◌, Option, none, some, find, find-key, inl, inr,
  Bool-cases, arith,
}
use agentic_cartoon_demo.Exceptions.{ok}
use agentic_cartoon_demo.Persistence.Types.{WorkflowRecord, WorkflowTransitionRecord}
use agentic_cartoon_demo.Persistence.Session.{Db, pure, ◌>>=◌, ◌>>◌}
use agentic_cartoon_demo.Persistence.Session.Laws.{>>=-ok, pure-ok}
use agentic_cartoon_demo.Persistence.WorkflowRepo.{workflow_key, Repo}
use agentic_cartoon_demo.Workflow.Types.{
  WorkflowState, ApprovalAction, state_eq, state_eq_iff, approval_value,
}
use agentic_cartoon_demo.Workflow.TransitionTable.{ApprovalDecision, lookup_approval}
use agentic_cartoon_demo.Workflow.OutboxBuilder.{
  OutboxTaskSpec, OutboxBuildResult, build_for_decision,
}
use agentic_cartoon_demo.Workflow.OutboxBuilder.Effects.{Quiet-trans, build_for_decision-Fits}
use agentic_cartoon_demo.Workflow.Executor.{
  Written, approval_result, ApprovalActionResult, execute_approval,
}
use agentic_cartoon_demo.Workflow.Engine.{
  build_transition, apply_approval_action, check_approval, approve_workflow,
}
use agentic_cartoon_demo.Workflow.Engine.Inversion.{execute_approval-ok, located}
use agentic_cartoon_demo.Workflow.Engine.Effects.{
  Audits, build_transition-Audits, Change, perform-Change,
}

-- A call that returned has found the row `w` waiting for approval, and has made the one change that
-- the action asks for.
pub record Approved (workflow_id : String) (action : ApprovalAction) (db after : Db)
    (r : ApprovalActionResult) : Type 0 where
  pub w : WorkflowRecord
  pub w' : WorkflowRecord
  pub t : WorkflowTransitionRecord
  pub found : find workflow_key workflow_id db.workflows ≡ some w
  pub waiting : w.state ≡ WorkflowState.awaiting_human_approval
  pub change :
      Change db after w w' t
        (lookup_approval action).to_state
        none
        none
        (lookup_approval action).outbox_task_type
  pub enqueued : Option OutboxTaskSpec
  pub reported : r ≡ approval_result w (lookup_approval action) (w', t, enqueued)

check_approval-ok :
    (workflow_id : String) (action : ApprovalAction) (state : WorkflowState) (db : Db)
    {u : Unit {0}} {after : Db}
    → check_approval workflow_id action state db ≡ (ok u, after)
    → (state ≡ WorkflowState.awaiting_human_approval) × (db ≡ after)
check_approval-ok workflow_id action state db h =
    elim (Bool-cases (state_eq state WorkflowState.awaiting_human_approval)) [
      | inl e ↦ ((state_eq_iff state WorkflowState.awaiting_human_approval).0 e, ground arith)
      | inr e ↦ absurd (ground arith)
    ]

module _ (repo : Repo) (workflow_id : String) (actor : Option String) where
  approve_workflow-Change :
      (w : WorkflowRecord) (d : ApprovalDecision) (db : Db) {r : ApprovalActionResult} {after : Db}
      → find workflow_key workflow_id db.workflows ≡ some w
      → approve_workflow repo workflow_id actor w d db ≡ (ok r, after)
      → (q : Written) × Change db after w q.0 q.1 d.to_state none none d.outbox_task_type
        × (r ≡ approval_result w d q)
  unfolding approve_workflow
  approve_workflow-Change w d db {after = after} found h =
      let id = find-key workflow_key workflow_id db.workflows w found in
      let execute = λ (o : Option OutboxBuildResult) (t : WorkflowTransitionRecord).
        execute_approval repo w d t o in
      let reason = "approval_" +str+ approval_value d.action in
      let audit = build_transition workflow_id w.state d.to_state reason actor in
      let (o, s₁, h₁, k₁) =
        >>=-ok (build_for_decision w d.outbox_task_type d.increment_logical_version)
          (λ o. audit >>= λ t. execute o t >>= λ result. pure result.1) db h in
      let (t, s₂, h₂, k₂) = >>=-ok audit (λ t. execute o t >>= λ result. pure result.1) s₁ k₁ in
      let (p, s₃, h₃, k₃) = >>=-ok (execute o t) (λ result. pure result.1) s₂ k₂ in
      let (fits, q₁) =
        build_for_decision-Fits w d.outbox_task_type d.increment_logical_version db h₁ in
      let (audits, q₂) =
        build_transition-Audits workflow_id w.state d.to_state reason actor s₁ h₂ in
      let (q, run, report) = execute_approval-ok repo w t s₂ d o h₃ in
      let (last, ended) = pure-ok p.1 s₃ k₃ in
      let (change, same) =
        perform-Change repo w d.to_state none none t d.outbox_task_type o db s₂
          (subst (λ i. find workflow_key i db.workflows ≡ some w) (sym id) found)
          (Quiet-trans db s₁ s₂ q₁ q₂) fits
          (subst (λ i. Audits t i w.state d.to_state) (sym id) audits) run in
      (
        q,
        subst₂ (λ t a. Change db a w q.0 t d.to_state none none d.outbox_task_type) (sym same) ended
            change,
        sym last ∙ report,
      )

  pub apply_approval_action-Approved :
      (action : ApprovalAction) (db : Db) {r : ApprovalActionResult} {after : Db}
      → apply_approval_action repo workflow_id action actor db ≡ (ok r, after)
      → Approved workflow_id action db after r
  unfolding apply_approval_action
  apply_approval_action-Approved action db {r = r} {after = after} h =
      let d = lookup_approval action in
      let (w, found, rest) =
        located workflow_id
          (λ w.
            check_approval workflow_id action w.state
            >> approve_workflow repo workflow_id actor w d)
          db h in
      let (u, s, h₁, k₁) =
        >>=-ok (check_approval workflow_id action w.state)
          (λ _. approve_workflow repo workflow_id actor w d) db rest in
      let (waiting, same) = check_approval-ok workflow_id action w.state db h₁ in
      let (q, change, report) = approve_workflow-Change w d db found (
        subst (λ x. approve_workflow repo workflow_id actor w d x ≡ (ok r, after)) (sym same) k₁) in
      record {
        w = w;
        w' = q.0;
        t = q.1;
        found = found;
        waiting = waiting;
        change = change;
        enqueued = q.2;
        reported = report;
      }
