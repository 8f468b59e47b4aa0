-- ===== src/Workflow/Commands.antt =====
-- The calls of workflow/engine.py: the API and the worker make the first three, each in a
-- transaction of its own; the coordinator's thread makes the last one, in no transaction.
pub mod Effects
use agentic_cartoon_demo.Base.{ℕ, false, String, List, [], ◌∷◌, Option}
use agentic_cartoon_demo.Config.{WorkflowConfig}
use agentic_cartoon_demo.Persistence.Session.{Db, Action, transaction}
use agentic_cartoon_demo.Persistence.WorkflowRepo.{Repo}
use agentic_cartoon_demo.Workflow.Types.{ApprovalAction}
use agentic_cartoon_demo.Workflow.Engine.{
  InitiateWorkflowRequest, TransitionRequest, initiate_workflow, apply_transition,
  apply_approval_action,
}
use agentic_cartoon_demo.Workflow.Reconcile.{Scanner}
use agentic_cartoon_demo.Workflow.Reconcile.Repair.{scan_and_repair}

pub data Command : Type 0 where
  initiate : Option InitiateWorkflowRequest → Command
  transition : TransitionRequest → Command
  reconcile : Scanner → (batch_size : ℕ) → Command
  approval : (workflow_id : String) → ApprovalAction → (actor : Option String) → Command

module _ (repo : Repo) (config : WorkflowConfig) where
  -- The database after a call, whether it returned or raised.
  unfoldable pub run : Command → Db → Db
  run (initiate request) db = (transaction (initiate_workflow repo request) db).1
  run (transition request) db = (transaction (apply_transition repo config request) db).1
  run (approval workflow_id action actor) db =
      (transaction (apply_approval_action repo workflow_id action actor) db).1
  run (reconcile s batch_size) db =
      (scan_and_repair repo config s batch_size (record db { in_transaction = false })).1

  unfoldable pub run_all : List Command → Db → Db
  unfolding run
  run_all [] db = db
  run_all (c ∷ cs) db = run_all cs (run c db)
