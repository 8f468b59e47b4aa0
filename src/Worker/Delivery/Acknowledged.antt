-- ===== src/Worker/Delivery/Acknowledged.antt =====
-- What stands behind an acknowledgement: worker/loop.py.
use agentic_cartoon_demo.Base.{◌≡◌, refl, ◌⊎◌, inl, inr, ◌≢◌, Bool, true, false, Option, none, some}
use agentic_cartoon_demo.Config.{WorkflowConfig}
use agentic_cartoon_demo.Exceptions.{ok}
use agentic_cartoon_demo.Persistence.Types.{TaskRecord, WorkflowRecord}
use agentic_cartoon_demo.Persistence.Session.{Db}
use agentic_cartoon_demo.Persistence.WorkflowRepo.{Repo, get_task, get_workflow}
use agentic_cartoon_demo.Workflow.Invariants.Rows.{row_of}
use agentic_cartoon_demo.Worker.Types.{PendingDelivery}
use agentic_cartoon_demo.Worker.StateGuard.{StaleAction, classify_stale_task}
use agentic_cartoon_demo.Worker.Failure.Outcomes.{task_of}
use agentic_cartoon_demo.Worker.Delivery.{
  Loop, process_fresh, process_unless_stale, process_found, process_delivery,
}
use agentic_cartoon_demo.Worker.Delivery.Settled.{Settled, process_task-Settled}

-- What stands behind an acknowledged delivery.
pub record Acknowledged (repo : Repo) (config : WorkflowConfig) (loop : Loop)
    (delivery : PendingDelivery) (db after : Db) : Type 0 where
  pub task : TaskRecord
  pub workflow : WorkflowRecord
  pub task_there : task_of delivery.message.task_id db ≡ some task
  pub workflow_there : row_of delivery.message.workflow_id db ≡ some workflow
  pub outcome :
      (((classify_stale_task workflow.state task.task_type).action ≢ StaleAction.proceed)
        × (after ≡ db))
      ⊎ Settled repo config loop delivery task workflow after

module _ (repo : Repo) (config : WorkflowConfig) (loop : Loop) (delivery : PendingDelivery)
    (deferred : Bool) (db : Db) {after : Db} where
  fresh-Settled :
      (deferred : Bool) (task : TaskRecord) (workflow : WorkflowRecord)
      → process_fresh repo config loop delivery deferred task workflow db ≡ (ok true, after)
      → Settled repo config loop delivery task workflow after
  fresh-Settled true task workflow h = cc
  fresh-Settled false task workflow h =
      process_task-Settled repo config loop delivery task workflow db h

  action-Settled :
      (task : TaskRecord) (workflow : WorkflowRecord) (action : StaleAction)
      → process_unless_stale repo config loop delivery deferred task workflow action db
        ≡ (ok true, after)
      → ((action ≢ StaleAction.proceed) × (after ≡ db))
        ⊎ Settled repo config loop delivery task workflow after
  action-Settled task workflow StaleAction.proceed h = inr (fresh-Settled deferred task workflow h)
  action-Settled task workflow _ h = inl ((λ e. cc), cc)

  found-Acknowledged :
      (task : Option TaskRecord) (workflow : Option WorkflowRecord)
      → task_of delivery.message.task_id db ≡ task
      → row_of delivery.message.workflow_id db ≡ workflow
      → process_found repo config loop delivery deferred task workflow db ≡ (ok true, after)
      → Acknowledged repo config loop delivery db after
  found-Acknowledged (some task) (some workflow) e₁ e₂ h = record {
    task = task;
    workflow = workflow;
    task_there = e₁;
    workflow_there = e₂;
    outcome =
        action-Settled task workflow (classify_stale_task workflow.state task.task_type).action h;
  }
  found-Acknowledged none workflow e₁ e₂ h = cc
  found-Acknowledged (some task) none e₁ e₂ h = cc

  -- A delivery is acknowledged only when its task and its workflow are stored, and either the
  -- workflow is in another state than the one the task expects, and nothing has changed; or the
  -- task's completion is on record, under the key of one of its logical versions; or the task and
  -- the workflow have failed.
  pub process_delivery-Acknowledged :
      process_delivery repo config loop delivery deferred db ≡ (ok true, after)
      → Acknowledged repo config loop delivery db after
  unfolding process_delivery get_task get_workflow
  process_delivery-Acknowledged h =
      found-Acknowledged (task_of delivery.message.task_id db)
        (row_of delivery.message.workflow_id db) refl refl h
