-- ===== src/Persistence/Listings.antt =====
-- The listing methods of workflow/fakes/workflow.py and workflow/fakes/outbox.py. The repositories of
-- PostgreSQL have no `list_tasks_for_workflow`, `list_workflows_for_reconciliation` or
-- `list_unpublished_outbox_for_workflow`; the callers look them up by `getattr`, and go on as with
-- an empty list where they are missing.
use agentic_cartoon_demo.Base.{
  ℕ, Bool, not, ◌&&◌, String, List, [], Option, none, some, ltb, leb, ◌=str=◌, filter, true, take,
  sort, insert_sorted,
}
use agentic_cartoon_demo.Workflow.Types.{WorkflowState, is_terminal}
use agentic_cartoon_demo.Persistence.Types.{WorkflowRecord, TaskRecord, OutboxEntry}
use agentic_cartoon_demo.Persistence.Session.{Db}
use agentic_cartoon_demo.Persistence.WorkflowRepo.{Repo, postgres, workflow_fake}
use agentic_cartoon_demo.Persistence.OutboxRepo.{is_pending}

abbrev pub task_of_workflow : String → TaskRecord → Bool
task_of_workflow workflow_id t = t.workflow_id =str= workflow_id

unfoldable pub list_tasks_for_workflow : Repo → String → Db → List TaskRecord
unfolding sort insert_sorted
list_tasks_for_workflow postgres workflow_id db = []
list_tasks_for_workflow workflow_fake workflow_id db =
    sort (λ a b. leb a.created_at b.created_at) (filter (task_of_workflow workflow_id) db.tasks)

-- The `if` of the comprehension over the workflows.
abbrev pub is_listed : (WorkflowState → Bool) → Option ℕ → WorkflowRecord → Bool
is_listed states updated_before w =
    states w.state
    && (not (is_terminal w.state)
        && elim updated_before [ none ↦ true | some t ↦ ltb w.updated_at t ])

unfoldable pub list_workflows_for_reconciliation :
    Repo → (WorkflowState → Bool) → Option ℕ → ℕ → Db → List WorkflowRecord
unfolding sort insert_sorted
list_workflows_for_reconciliation postgres states updated_before limit db = []
list_workflows_for_reconciliation workflow_fake states updated_before limit db = take limit (
    sort (λ a b. leb a.updated_at b.updated_at)
      (filter (is_listed states updated_before) db.workflows))

unfoldable pub list_unpublished_outbox_for_workflow : Repo → String → Db → List OutboxEntry
list_unpublished_outbox_for_workflow postgres workflow_id db = []
list_unpublished_outbox_for_workflow workflow_fake workflow_id db =
    filter (λ e. (e.workflow_id =str= workflow_id) && is_pending e) db.outbox
