-- ===== src/Workflow/Commands/Effects.antt =====
-- What the calls do to the tables.
use agentic_cartoon_demo.Base.{false, ◌≡◌, refl, String, List, [], ◌∷◌, Option}
use agentic_cartoon_demo.Config.{WorkflowConfig}
use agentic_cartoon_demo.Exceptions.{ok}
use agentic_cartoon_demo.Persistence.Session.{Db}
use agentic_cartoon_demo.Persistence.WorkflowRepo.{Repo}
use agentic_cartoon_demo.Workflow.Types.{ApprovalAction}
use agentic_cartoon_demo.Workflow.Executor.{
  TransitionResult, ApprovalActionResult, InitiateWorkflowResult,
}
use agentic_cartoon_demo.Workflow.Engine.{
  InitiateWorkflowRequest, TransitionRequest, initiate_workflow, apply_transition,
  apply_approval_action,
}
use agentic_cartoon_demo.Workflow.Engine.Outcomes.{apply_transition-Applied}
use agentic_cartoon_demo.Workflow.Engine.Approval.{apply_approval_action-Approved}
use agentic_cartoon_demo.Workflow.Engine.Initiate.{initiate_workflow-Initiated}
use agentic_cartoon_demo.Workflow.Effects.{
  tables, add, move, edge, human, initiation, Effects, done, then_, both, transaction-Effects,
}
use agentic_cartoon_demo.Workflow.Reconcile.Effects.{scan_and_repair-Effects}
use agentic_cartoon_demo.Workflow.Commands.{
  reconcile, Command, initiate, transition, approval, run, run_all,
}

module _ (config : WorkflowConfig) where
  Applied-Effects :
      (repo : Repo) (request : TransitionRequest) (start : Db) (r : TransitionResult) (end : Db)
      → apply_transition repo config request start ≡ (ok r, end)
      → Effects config start end
  Applied-Effects repo request start r end h =
      let a = apply_transition-Applied repo config request start h in
      then_ (move a.w a.w' a.t (edge request.signal a.d a.decided) a.change) done

  Approved-Effects :
      (repo : Repo) (workflow_id : String) (action : ApprovalAction) (actor : Option String)
      (start : Db) (r : ApprovalActionResult) (end : Db)
      → apply_approval_action repo workflow_id action actor start ≡ (ok r, end)
      → Effects config start end
  Approved-Effects repo workflow_id action actor start r end h =
      let a = apply_approval_action-Approved repo workflow_id actor action start h in
      then_ (move a.w a.w' a.t (human action a.waiting) a.change) done

  Initiated-Effects :
      (repo : Repo) (request : Option InitiateWorkflowRequest) (start : Db)
      (r : InitiateWorkflowResult) (end : Db)
      → initiate_workflow repo request start ≡ (ok r, end)
      → Effects config start end
  Initiated-Effects repo request begin r end h =
      let a = initiate_workflow-Initiated repo request begin h in
      then_ (tables (cc a.quiet)) (
        then_ (add a.w a.created)
          (then_ (move a.w a.w' a.t (initiation a.created.initial) a.change) done))

  pub run-Effects : (repo : Repo) (c : Command) (db : Db) → Effects config db (run repo config c db)
  unfolding run
  run-Effects repo (initiate request) db =
      transaction-Effects config (initiate_workflow repo request) db
        (Initiated-Effects repo request)
  run-Effects repo (transition request) db =
      transaction-Effects config (apply_transition repo config request) db
        (Applied-Effects repo request)
  run-Effects repo (approval workflow_id action actor) db =
      transaction-Effects config (apply_approval_action repo workflow_id action actor) db
        (Approved-Effects repo workflow_id action actor)
  run-Effects repo (reconcile s batch_size) db =
      then_ (tables refl) (
        scan_and_repair-Effects config repo s batch_size (record db { in_transaction = false })
          refl)

  pub run_all-Effects :
      (repo : Repo) (cs : List Command) (db : Db) → Effects config db (run_all repo config cs db)
  unfolding run_all
  run_all-Effects repo [] db = done
  run_all-Effects repo (c ∷ cs) db =
      both config (run-Effects repo c db) (run_all-Effects repo cs (run repo config c db))
