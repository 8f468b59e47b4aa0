-- ===== src/Workflow/Engine/Revision.antt =====
-- The revision count and the PostgreSQL repository: persistence/repos/workflow.py has no keyword for
-- it, and workflow/executor.py passes it.
use agentic_cartoon_demo.Base.{ℕ, ◌<◌, ◌≡◌, refl, ap, ◌∙◌, sym, true, some, find, arith, not}
use agentic_cartoon_demo.Config.{WorkflowConfig}
use agentic_cartoon_demo.Exceptions.{ok, err, workflow_conflict, invalid_transition, type_error}
use agentic_cartoon_demo.Persistence.Types.{WorkflowRecord}
use agentic_cartoon_demo.Persistence.Session.{Db, ◌>>=◌, ◌>>◌, raise_unless}
use agentic_cartoon_demo.Persistence.Session.Laws.{guard-step}
use agentic_cartoon_demo.Persistence.WorkflowRepo.{
  workflow_key, postgres, call_update_workflow_state,
}
use agentic_cartoon_demo.Workflow.Types.{
  WorkflowState, TransitionSignal, state_eq, state_eq_iff, is_terminal,
}
use agentic_cartoon_demo.Workflow.TransitionTable.{TransitionDecision, lookup, decide_to}
use agentic_cartoon_demo.Workflow.OutboxBuilder.{build_for_decision}
use agentic_cartoon_demo.Workflow.Engine.{
  TransitionRequest, build_transition, carry_out, move_workflow, apply_transition, with_reason,
  relabel,
}
use agentic_cartoon_demo.Workflow.Engine.Inversion.{located-step}
use agentic_cartoon_demo.Workflow.Executor.{perform, execute_transition}

abbrev revision : TransitionDecision
revision =
    record (decide_to WorkflowState.reviewing WorkflowState.revision_required
      TransitionSignal.critic_revise) { increment_revision_count = true }

lookup-revision :
    (s : WorkflowState) (signal : TransitionSignal) (count limit : ℕ)
    → s ≡ WorkflowState.reviewing
    → signal ≡ TransitionSignal.critic_revise
    → count < limit
    → lookup s signal count limit ≡ ok revision
unfolding lookup
lookup-revision s signal count limit e e' below =
    ap (λ x. lookup x signal count limit) e
    ∙ ap (λ x. lookup WorkflowState.reviewing x count limit) e'
    ∙ ground (arith, below)

module _ (config : WorkflowConfig) (request : TransitionRequest) (db : Db) where
  carry_out-revision :
      (w : WorkflowRecord)
      → (carry_out postgres config w request (with_reason request revision) db).0 ≡ err type_error
  unfolding carry_out build_for_decision build_transition execute_transition perform
      call_update_workflow_state
  carry_out-revision w = refl

  move-revision :
      (w : WorkflowRecord)
      → w.state ≡ WorkflowState.reviewing
      → request.expected_state ≡ WorkflowState.reviewing
      → request.signal ≡ TransitionSignal.critic_revise
      → w.revision_count < config.max_scenario_revisions
      → (move_workflow postgres config request w db).0 ≡ err type_error
  unfolding move_workflow
  move-revision w reviewing expected revise below =
      let limit = config.max_scenario_revisions in
      let found_state = lookup w.state request.signal w.revision_count limit in
      let error = invalid_transition request.workflow_id w.state request.signal in
      let go =
        λ (d : TransitionDecision). carry_out postgres config w request (with_reason request d) in
      let rest = relabel request.workflow_id w.state request.signal found_state >>= go in
      ap (λ p. p.0)
        (guard-step (state_eq w.state request.expected_state)
            (workflow_conflict request.workflow_id)
            (raise_unless (not (is_terminal w.state)) error >> rest) db
            ((state_eq_iff w.state request.expected_state).1 (reviewing ∙ sym expected))
          ∙ guard-step (not (is_terminal w.state)) error rest db
              (ap (λ s. not (is_terminal s)) reviewing)
          ∙ ap (λ r. (relabel request.workflow_id w.state request.signal r >>= go) db)
              (lookup-revision w.state request.signal w.revision_count limit reviewing revise
                below))
      ∙ carry_out-revision w

  -- With the PostgreSQL repository, `apply_transition` raises TypeError for CRITIC_REVISE on every
  -- workflow in REVIEWING whose revision count is below the cap.
  pub critic_revise-type_error :
      (w : WorkflowRecord)
      → db.in_transaction ≡ true
      → find workflow_key request.workflow_id db.workflows ≡ some w
      → w.state ≡ WorkflowState.reviewing
      → request.expected_state ≡ WorkflowState.reviewing
      → request.signal ≡ TransitionSignal.critic_revise
      → w.revision_count < config.max_scenario_revisions
      → (apply_transition postgres config request db).0 ≡ err type_error
  unfolding apply_transition
  critic_revise-type_error w active found reviewing expected revise below =
      ap (λ p. p.0)
        (located-step request.workflow_id (move_workflow postgres config request) db w active found)
      ∙ move-revision w reviewing expected revise below
