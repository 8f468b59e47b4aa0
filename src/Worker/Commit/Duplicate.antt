-- ===== src/Worker/Commit/Duplicate.antt =====
-- The second commit of a task: the loser's path of worker/loop.py.
use agentic_cartoon_demo.Base.{
  ◌≡◌, refl, ap, ◌∙◌, sym, subst, ◌≢◌, inl, inr, true, false, Bool-cases, Option, none, some,
  if◌then◌else◌, arith,
}
use agentic_cartoon_demo.Config.{WorkflowConfig}
use agentic_cartoon_demo.Exceptions.{Exception, Result, ok, err, workflow_conflict, task_execution}
use agentic_cartoon_demo.Persistence.Types.{WorkflowRecord, IdempotencyRecord}
use agentic_cartoon_demo.Persistence.Session.{Db, pure, raise, ◌>>=◌}
use agentic_cartoon_demo.Persistence.Session.Laws.{>>=-step, >>=-err}
use agentic_cartoon_demo.Persistence.WorkflowRepo.{Repo, get_workflow}
use agentic_cartoon_demo.Workflow.Types.{WorkflowState, state_eq}
use agentic_cartoon_demo.Workflow.OutboxBuilder.Effects.{Quiet, Quiet-trans}
use agentic_cartoon_demo.Workflow.Engine.{apply_transition}
use agentic_cartoon_demo.Workflow.Engine.Refusals.{conflict, apply_transition-refused}
use agentic_cartoon_demo.Workflow.Invariants.Rows.{row_of}
use agentic_cartoon_demo.Worker.Types.{TaskHandlerResult, IdempotencyClaimResult, DeliveryContext}
use agentic_cartoon_demo.Worker.StateGuard.{expected_state_for_task, post_transition_state}
use agentic_cartoon_demo.Worker.Idempotency.{
  claim_completion, completion_of, claim_completion-Claimed,
}
use agentic_cartoon_demo.Worker.Commit.{
  loser_path, loser_path_of, commit_success_path, commit_completed, after_claim, claim_spec,
  stage_request, signal_of, is_success, or_raise, try_again, apply_again, complete_applied,
  after_conflict, on_conflict, is_retryable,
}

module _ (repo : Repo) (config : WorkflowConfig) (ctx : DeliveryContext)
    (result : TaskHandlerResult) (db : Db) (active : db.in_transaction ≡ true) where
  -- The workflow has left the state that the task expects.
  abbrev pub Left : Type 0
  Left =
      (w : WorkflowRecord)
      → row_of ctx.delivery.message.workflow_id db ≡ some w
      → w.state ≢ expected_state_for_task ctx.task_type

  -- The second try meets the conflict, and the tables stay as they are.
  try_again-Quiet :
      (w : WorkflowRecord) (s : WorkflowState)
      → row_of ctx.delivery.message.workflow_id db ≡ some w
      → Left
      → Quiet db (try_again repo config ctx result w.state s db).1
  unfolding get_workflow
  try_again-Quiet w s found left = elim (Bool-cases (state_eq w.state s)) [
    | inl e ↦ ground (arith, e)
    | inr e ↦
        let request = stage_request repo config ctx result "scenario_c_loser" in
        let conflict_ = workflow_conflict ctx.delivery.message.workflow_id in
        let refused =
          apply_transition-refused repo config request db (some w) conflict_ active found
            (conflict w (left w found)) in
        let raised = >>=-err (apply_transition repo config request) (λ _. pure true) db refused in
        let handler = λ (x : Exception).
          get_workflow ctx.delivery.message.workflow_id >>= after_conflict repo config s x in
        let again : apply_again repo config ctx result s db ≡ (err conflict_, db) =
          ap (λ p. on_conflict handler p.0 p.1) raised
          ∙ ap (λ o. after_conflict repo config s conflict_ o db) found
          ∙ ap (λ c. (if c then pure false else raise conflict_) db) e in
        let finish = complete_applied repo config ctx.delivery.message in
        let total =
          ap (λ c. (if c then pure tt else (apply_again repo config ctx result s >>= finish)) db) e
          ∙ >>=-err (apply_again repo config ctx result s) finish db again in
        subst (Quiet db) (sym (ap (λ p. p.1) total)) refl
  ]

  loser_path_of-Quiet :
      (o : Option WorkflowRecord) (expected : Result WorkflowState)
      → row_of ctx.delivery.message.workflow_id db ≡ o
      → post_transition_state ctx.task_type (signal_of result) ≡ expected
      → Left
      → Quiet db (loser_path_of repo config ctx result o db).1
  unfolding loser_path_of
  loser_path_of-Quiet none expected found known left = refl
  loser_path_of-Quiet (some w) expected found known left =
      subst (λ r. Quiet db ((or_raise r >>= try_again repo config ctx result w.state) db).1)
        (sym known) (by_result expected)
    where
      by_result :
          (r : Result WorkflowState)
          → Quiet db ((or_raise r >>= try_again repo config ctx result w.state) db).1
      by_result (err e) = refl
      by_result (ok s) = try_again-Quiet w s found left

  loser_path-Quiet : Left → Quiet db (loser_path repo config ctx result db).1
  unfolding loser_path get_workflow
  loser_path-Quiet left =
      loser_path_of-Quiet (row_of ctx.delivery.message.workflow_id db)
        (post_transition_state ctx.task_type (signal_of result)) refl refl left

-- A delivery whose handler has succeeded, when the task's completion is on record and the workflow
-- has left the state that the task expects: whatever the commit returns or raises, it changes no
-- table.
pub duplicate-Quiet :
    (repo : Repo) (config : WorkflowConfig) (ctx : DeliveryContext) (result : TaskHandlerResult)
    (db : Db) (r : IdempotencyRecord)
    → db.in_transaction ≡ true
    → completion_of ctx.idempotency_key db ≡ some r
    → ((w : WorkflowRecord)
        → row_of ctx.delivery.message.workflow_id db ≡ some w
        → w.state ≢ expected_state_for_task ctx.task_type)
    → Quiet db (commit_success_path repo config ctx result db).1
unfolding commit_success_path
duplicate-Quiet repo config ctx result db r active there left =
    elim (Bool-cases (is_success result.outcome)) [
      | inr failed ↦ ground (arith, failed)
      | inl succeeded ↦
          let claim = claim_completion-Claimed (claim_spec repo config ctx result) db active in
          let rest = λ (c : IdempotencyClaimResult). after_claim repo config ctx result c.phase in
          let run : commit_completed repo config ctx result db
              ≡ after_claim repo config ctx result claim.result.phase claim.after =
            >>=-step (claim_completion (claim_spec repo config ctx result)) rest db claim.runs
              refl in
          elim claim.outcome [
            | inl (phase, missing, _, _) ↦ cc
            | inr (phase, _, quiet) ↦
                let mid = claim.after in
                let path : commit_success_path repo config ctx result db
                    ≡ loser_path repo config ctx result mid =
                  ap
                    (λ c.
                      (if c
                          then commit_completed repo config ctx result
                          else raise (
                              task_execution ctx.delivery.message.workflow_id
                                ctx.delivery.message.task_id ctx.task_type
                                (is_retryable result.outcome)))
                        db)
                    succeeded
                  ∙ run
                  ∙ ap (λ p. after_claim repo config ctx result p mid) phase in
                let rows = ap (λ (d : Db). row_of ctx.delivery.message.workflow_id d) quiet in
                subst (λ (x : Result (Unit {0}) × Db). Quiet db x.1) (sym path)
                  (Quiet-trans db mid (loser_path repo config ctx result mid).1 quiet (
                    loser_path-Quiet repo config ctx result mid
                      (ap (λ (d : Db). d.in_transaction) quiet ∙ active)
                      (λ w found. left w (sym rows ∙ found))))
          ]
    ]
