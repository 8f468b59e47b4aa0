-- ===== src/Workflow/Engine/Inversion.antt =====
-- Inversion of what the methods of workflow/engine.py share: the executor's methods, and the row read.
use agentic_cartoon_demo.Base.{ℕ, ◌≡◌, ap, ◌∙◌, sym, subst, true, String, Option, none, some, find}
use agentic_cartoon_demo.Exceptions.{ok, err, runtime_error, workflow_not_found}
use agentic_cartoon_demo.Persistence.Types.{WorkflowRecord, WorkflowTransitionRecord}
use agentic_cartoon_demo.Persistence.Session.{Db, Action, pure, ◌>>=◌, ◌>>◌, require_active}
use agentic_cartoon_demo.Persistence.Session.Laws.{>>=-ok, pure-ok, guard-ok, guard-step}
use agentic_cartoon_demo.Persistence.WorkflowRepo.{workflow_key, Repo, get_workflow}
use agentic_cartoon_demo.Workflow.Types.{WorkflowState}
use agentic_cartoon_demo.Workflow.TransitionTable.{TransitionDecision, ApprovalDecision}
use agentic_cartoon_demo.Workflow.OutboxBuilder.{OutboxBuildResult}
use agentic_cartoon_demo.Workflow.Executor.{
  Written, transition_result, approval_result, initiate_result, TransitionResult,
  ApprovalActionResult, InitiateWorkflowResult, perform, execute_transition, execute_approval,
  execute_initiate,
}
use agentic_cartoon_demo.Workflow.Engine.{found_or_raise}

module _ (repo : Repo) (w : WorkflowRecord) (t : WorkflowTransitionRecord) (db : Db) where
  pub execute_transition-ok :
      (d : TransitionDecision) (o : Option OutboxBuildResult) (count : Option ℕ)
      {p : WorkflowRecord × TransitionResult} {after : Db}
      → execute_transition repo w d t o count db ≡ (ok p, after)
      → (q : Written) × (perform repo w d.to_state d.set_failure_reason count t o db
          ≡ (ok q, after))
        × (p.1 ≡ transition_result w d q)
  unfolding execute_transition
  execute_transition-ok d o count h =
      let (q, s, h₁, k₁) =
        >>=-ok (perform repo w d.to_state d.set_failure_reason count t o)
          (λ written. pure (written.0, transition_result w d written)) db h in
      let (same, ended) = pure-ok (q.0, transition_result w d q) s k₁ in
      (q, cc (h₁, ended), ap (λ x. x.1) (sym same))

  pub execute_approval-ok :
      (d : ApprovalDecision) (o : Option OutboxBuildResult)
      {p : WorkflowRecord × ApprovalActionResult} {after : Db}
      → execute_approval repo w d t o db ≡ (ok p, after)
      → (q : Written) × (perform repo w d.to_state none none t o db ≡ (ok q, after))
        × (p.1 ≡ approval_result w d q)
  unfolding execute_approval
  execute_approval-ok d o h =
      let (q, s, h₁, k₁) =
        >>=-ok (perform repo w d.to_state none none t o)
          (λ written. pure (written.0, approval_result w d written)) db h in
      let (same, ended) = pure-ok (q.0, approval_result w d q) s k₁ in
      (q, cc (h₁, ended), ap (λ x. x.1) (sym same))

  pub execute_initiate-ok :
      (o : OutboxBuildResult) {r : InitiateWorkflowResult} {after : Db}
      → execute_initiate repo w t o db ≡ (ok r, after)
      → (q : Written) × (perform repo w WorkflowState.collecting none none t (some o) db
          ≡ (ok q, after))
        × (r ≡ initiate_result w o q)
  unfolding execute_initiate
  execute_initiate-ok o h =
      let (q, s, h₁, k₁) =
        >>=-ok (perform repo w WorkflowState.collecting none none t (some o))
          (λ written. pure (initiate_result w o written)) db h in
      let (same, ended) = pure-ok (initiate_result w o q) s k₁ in (q, cc (h₁, ended), sym same)

found_or_raise-ok :
    (id : String) (o : Option WorkflowRecord) (db : Db) {w : WorkflowRecord} {after : Db}
    → found_or_raise id o db ≡ (ok w, after)
    → (o ≡ some w) × (db ≡ after)
found_or_raise-ok id none db h = cc
found_or_raise-ok id (some w) db h = (cc, cc)

-- A method that reads a row first, after its check that a transaction is active.
pub located {ℓ} :
    {B : Type ℓ} (id : String) (k : WorkflowRecord → Action B) (db : Db) {b : B} {after : Db}
    → (require_active >> (get_workflow id >>= λ found. found_or_raise id found >>= k)) db
      ≡ (ok b, after)
    → (w : WorkflowRecord) × (find workflow_key id db.workflows ≡ some w) × (k w db ≡ (ok b, after))
unfolding get_workflow
located id k db {b = b} {after = after} h =
    let (active, h₁) =
      guard-ok db.in_transaction runtime_error
        (get_workflow id >>= λ found. found_or_raise id found >>= k) db h in
    let (w, s, h₂, k₂) = >>=-ok (found_or_raise id (find workflow_key id db.workflows)) k db h₁ in
    let (there, same) = found_or_raise-ok id (find workflow_key id db.workflows) db h₂ in
    (w, there, subst (λ d. k w d ≡ (ok b, after)) (sym same) k₂)

-- The row that is read is handed on, or there is none.
pub located-step {ℓ} :
    {B : Type ℓ} (id : String) (k : WorkflowRecord → Action B) (db : Db) (w : WorkflowRecord)
    → db.in_transaction ≡ true
    → find workflow_key id db.workflows ≡ some w
    → (require_active >> (get_workflow id >>= λ found. found_or_raise id found >>= k)) db ≡ k w db
unfolding get_workflow
located-step id k db w active found =
    guard-step db.in_transaction runtime_error
      (get_workflow id >>= λ found. found_or_raise id found >>= k) db active
    ∙ ap (λ o. (found_or_raise id o >>= k) db) found

pub located-err {ℓ} :
    {B : Type ℓ} (id : String) (k : WorkflowRecord → Action B) (db : Db)
    → db.in_transaction ≡ true
    → find workflow_key id db.workflows ≡ none
    → (require_active >> (get_workflow id >>= λ found. found_or_raise id found >>= k)) db
      ≡ (err (workflow_not_found id), db)
unfolding get_workflow
located-err id k db active missing =
    guard-step db.in_transaction runtime_error
      (get_workflow id >>= λ found. found_or_raise id found >>= k) db active
    ∙ ap (λ o. (found_or_raise id o >>= k) db) missing
