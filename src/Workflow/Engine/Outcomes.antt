-- ===== src/Workflow/Engine/Outcomes.antt =====
-- Inversion of `apply_transition` of workflow/engine.py: what a call that returns has found and done.
use agentic_cartoon_demo.Base.{
  ◌≡◌, refl, ◌∙◌, sym, subst, subst₂, Bool, true, false, not, String, Option, some, find, find-key,
}
use agentic_cartoon_demo.Config.{WorkflowConfig}
use agentic_cartoon_demo.Exceptions.{Result, ok, err, workflow_conflict, invalid_transition}
use agentic_cartoon_demo.Persistence.Types.{WorkflowRecord, WorkflowTransitionRecord}
use agentic_cartoon_demo.Persistence.Session.{Db, pure, ◌>>=◌, ◌>>◌, raise_unless}
use agentic_cartoon_demo.Persistence.Session.Laws.{>>=-ok, pure-ok, guard-ok}
use agentic_cartoon_demo.Persistence.WorkflowRepo.{workflow_key, Repo}
use agentic_cartoon_demo.Workflow.Types.{
  WorkflowState, TransitionSignal, state_eq, state_eq_iff, is_terminal,
}
use agentic_cartoon_demo.Workflow.TransitionTable.{TransitionDecision, lookup}
use agentic_cartoon_demo.Workflow.OutboxBuilder.{
  OutboxTaskSpec, OutboxBuildResult, build_for_decision,
}
use agentic_cartoon_demo.Workflow.OutboxBuilder.Effects.{Quiet-trans, build_for_decision-Fits}
use agentic_cartoon_demo.Workflow.Executor.{
  Written, transition_result, TransitionResult, execute_transition,
}
use agentic_cartoon_demo.Workflow.Engine.{
  TransitionRequest, build_transition, carry_out, apply_transition, relabel, with_reason,
  new_revision, move_workflow,
}
use agentic_cartoon_demo.Workflow.Engine.Inversion.{execute_transition-ok, located}
use agentic_cartoon_demo.Workflow.Engine.Effects.{
  Audits, build_transition-Audits, Change, perform-Change,
}

-- A call that returned has found the row `w` under the identifier, and has made the one change that
-- the decision `d` asks for.
pub record Applied (config : WorkflowConfig) (request : TransitionRequest) (db after : Db)
    (r : TransitionResult) : Type 0 where
  pub w : WorkflowRecord
  pub w' : WorkflowRecord
  pub t : WorkflowTransitionRecord
  pub d : TransitionDecision
  pub found : find workflow_key request.workflow_id db.workflows ≡ some w
  pub expected : w.state ≡ request.expected_state
  pub running : is_terminal w.state ≡ false
  pub decided : lookup w.state request.signal w.revision_count config.max_scenario_revisions ≡ ok d
  pub change :
      Change db after w w' t d.to_state
        (with_reason request d).set_failure_reason
        (new_revision w d)
        d.outbox_task_type
  pub enqueued : Option OutboxTaskSpec
  pub reported : r ≡ transition_result w (with_reason request d) (w', t, enqueued)

module _ (repo : Repo) (config : WorkflowConfig) where
  carry_out-Change :
      (w : WorkflowRecord) (request : TransitionRequest) (d : TransitionDecision) (db : Db)
      {r : TransitionResult} {after : Db}
      → find workflow_key request.workflow_id db.workflows ≡ some w
      → carry_out repo config w request d db ≡ (ok r, after)
      → (q : Written) × Change db after w q.0 q.1 d.to_state d.set_failure_reason
          (new_revision w d)
          d.outbox_task_type
        × (r ≡ transition_result w d q)
  unfolding carry_out
  carry_out-Change w request d db {after = after} found h =
      let id = find-key workflow_key request.workflow_id db.workflows w found in
      let execute = λ (o : Option OutboxBuildResult) (t : WorkflowTransitionRecord).
        execute_transition repo w d t o (new_revision w d) in
      let audit =
        build_transition request.workflow_id w.state d.to_state request.reason request.actor in
      let (o, s₁, h₁, k₁) =
        >>=-ok (build_for_decision w d.outbox_task_type d.increment_logical_version)
          (λ o. audit >>= λ t. execute o t >>= λ result. pure result.1) db h in
      let (t, s₂, h₂, k₂) = >>=-ok audit (λ t. execute o t >>= λ result. pure result.1) s₁ k₁ in
      let (p, s₃, h₃, k₃) = >>=-ok (execute o t) (λ result. pure result.1) s₂ k₂ in
      let (fits, q₁) =
        build_for_decision-Fits w d.outbox_task_type d.increment_logical_version db h₁ in
      let (audits, q₂) =
        build_transition-Audits request.workflow_id w.state d.to_state request.reason request.actor
          s₁ h₂ in
      let (q, run, report) = execute_transition-ok repo w t s₂ d o (new_revision w d) h₃ in
      let (last, ended) = pure-ok p.1 s₃ k₃ in
      let (change, same) =
        perform-Change repo w d.to_state d.set_failure_reason (new_revision w d) t
          d.outbox_task_type o db s₂
          (subst (λ i. find workflow_key i db.workflows ≡ some w) (sym id) found)
          (Quiet-trans db s₁ s₂ q₁ q₂) fits
          (subst (λ i. Audits t i w.state d.to_state) (sym id) audits) run in
      (
        q,
        subst₂
            (λ t a.
              Change db a w q.0 t d.to_state d.set_failure_reason (new_revision w d)
                d.outbox_task_type)
            (sym same) ended change,
        sym last ∙ report,
      )

relabel-ok :
    (id : String) (s : WorkflowState) (signal : TransitionSignal) (r : Result TransitionDecision)
    (db : Db) {d : TransitionDecision} {after : Db}
    → relabel id s signal r db ≡ (ok d, after)
    → (r ≡ ok d) × (db ≡ after)
relabel-ok id s signal (ok d) db h = (cc, cc)
relabel-ok id s signal (err e) db h = cc

not-true : (b : Bool) → not b ≡ true → b ≡ false
not-true true h = cc
not-true false h = refl

module _ (repo : Repo) (config : WorkflowConfig) (request : TransitionRequest) where
  move_workflow-Applied :
      (w : WorkflowRecord) (db : Db) {r : TransitionResult} {after : Db}
      → find workflow_key request.workflow_id db.workflows ≡ some w
      → move_workflow repo config request w db ≡ (ok r, after)
      → Applied config request db after r
  unfolding move_workflow
  move_workflow-Applied w db {r = r} {after = after} found h =
      let found_state =
        lookup w.state request.signal w.revision_count config.max_scenario_revisions in
      let decide = relabel request.workflow_id w.state request.signal found_state in
      let go =
        λ (d : TransitionDecision). carry_out repo config w request (with_reason request d) in
      let (e₁, h₁) =
        guard-ok (state_eq w.state request.expected_state) (workflow_conflict request.workflow_id)
          (raise_unless (not (is_terminal w.state))
              (invalid_transition request.workflow_id w.state request.signal)
            >> (decide >>= go))
          db h in
      let (e₂, h₂) =
        guard-ok (not (is_terminal w.state))
          (invalid_transition request.workflow_id w.state request.signal) (decide >>= go) db h₁ in
      let (d, s, h₃, k₃) = >>=-ok decide go db h₂ in
      let (decided, same) =
        relabel-ok request.workflow_id w.state request.signal found_state db h₃ in
      let (q, change, report) =
        carry_out-Change repo config w request (with_reason request d) db found
          (subst (λ x. go d x ≡ (ok r, after)) (sym same) k₃) in
      record {
        w = w;
        w' = q.0;
        t = q.1;
        d = d;
        found = found;
        expected = (state_eq_iff w.state request.expected_state).0 e₁;
        running = not-true (is_terminal w.state) e₂;
        decided = decided;
        change = change;
        enqueued = q.2;
        reported = report;
      }

  pub apply_transition-Applied :
      (db : Db) {r : TransitionResult} {after : Db}
      → apply_transition repo config request db ≡ (ok r, after)
      → Applied config request db after r
  unfolding apply_transition
  apply_transition-Applied db h =
      let (w, found, rest) = located request.workflow_id (move_workflow repo config request) db h in
      move_workflow-Applied w db found rest
