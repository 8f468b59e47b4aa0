-- ===== src/Persistence/WorkflowRepo.antt =====
-- persistence/repos/workflow.py: workflows, their transition history, tasks and task payloads. An
-- SQL statement is its effect on the table, with the constraints of the schema: a violated one
-- raises, and `ErrorTranslator` turns what no handler names into PersistenceConnectionError.
pub mod Effects
pub mod Progress
use agentic_cartoon_demo.Base.{
  sort, insert_sorted, filter, leb, ℕ, ◌+◌, Bool, true, false, not, String, List, [], ◌∷◌, ◌++◌,
  Option, none, some, ◌≡◌, refl, if◌then◌else◌, ◌=str=◌, eqb, find, replace, is_some, or_else,
  get_or, filter,
}
use agentic_cartoon_demo.Exceptions.{
  Exception, Result, ok, err, persistence_conflict, persistence_not_found, persistence_duplicate,
  persistence_validation, persistence_connection, type_error,
}
use agentic_cartoon_demo.Workflow.Types.{WorkflowState}
use agentic_cartoon_demo.Persistence.Types.{
  JsonValue, JsonFields, TaskStatus, PayloadReference, WorkflowRecord, WorkflowTransitionRecord,
  TaskRecord, TaskPayload,
}
use agentic_cartoon_demo.Persistence.Session.{
  Db, Action, pure, raise, gets, modify, and_then, ◌>>=◌, ◌>>◌, raise_unless, now,
  require_active_transaction,
}

-- The primary keys.
abbrev pub workflow_key : WorkflowRecord → String
workflow_key w = w.workflow_id

abbrev pub transition_key : WorkflowTransitionRecord → String
transition_key t = t.transition_id

abbrev pub task_key : TaskRecord → String
task_key t = t.task_id

abbrev pub payload_key : TaskPayload → String
payload_key p = p.ref_id

-- `TASK_PAYLOAD_REF_KIND`
abbrev pub task_payload_ref_kind : String
task_payload_ref_kind = "task_payload"

unfoldable pub get_workflow : String → Action (Option WorkflowRecord)
unfolding find
get_workflow workflow_id = gets (λ db. find workflow_key workflow_id db.workflows)

-- INSERT INTO workflows; the primary key refuses a second row of one identifier.
unfoldable pub create_workflow : String → WorkflowState → Action WorkflowRecord
unfolding find
create_workflow workflow_id initial_state = do
  t ← now
  taken ← gets (λ db. is_some (find workflow_key workflow_id db.workflows))
  raise_unless (not taken) persistence_connection
  let record_ : WorkflowRecord = record {
    workflow_id = workflow_id;
    state = initial_state;
    state_version = 1;
    created_at = t;
    updated_at = t;
    revision_count = 0;
    failure_reason = none;
  }
  modify (λ db. record db { workflows = db.workflows ++ record_ ∷ [] })
  pure record_

-- The SET list of the UPDATE of a workflow.
abbrev pub advance : ℕ → WorkflowState → Option String → WorkflowRecord → WorkflowRecord
advance t new_state failure_reason w = record w {
  state = new_state;
  state_version = w.state_version + 1;
  updated_at = t;
  failure_reason = failure_reason;
}

-- `UPDATE … RETURNING` of the row `w`.
abbrev pub write_workflow : WorkflowRecord → Action WorkflowRecord
write_workflow w =
    modify
      (λ db. record db { workflows = replace workflow_key w.workflow_id (λ _. w) db.workflows })
    >> pure w

-- What follows from the row under the identifier: the UPDATE has changed it, or the version is
-- another, or there is none.
abbrev pub update_row :
    Option WorkflowRecord → ℕ → (WorkflowRecord → Action WorkflowRecord) → Action WorkflowRecord
update_row none expected_version write = raise persistence_not_found
update_row (some w) expected_version write =
    if eqb w.state_version expected_version then write w else raise persistence_conflict

-- `PostgresWorkflowRepo.update_workflow_state`
unfoldable pub update_workflow_state :
    String → ℕ → WorkflowState → Option String → Action WorkflowRecord
unfolding find replace
update_workflow_state workflow_id expected_version new_state failure_reason = do
  require_active_transaction
  t ← now
  found ← gets (λ db. find workflow_key workflow_id db.workflows)
  update_row found expected_version (λ w. write_workflow (advance t new_state failure_reason w))

-- `InMemoryWorkflowRepo.update_workflow_state` of workflow/fakes, which also takes the revision
-- count, and asks for no transaction.
unfoldable pub fake_update_workflow_state :
    String → ℕ → WorkflowState → Option String → Option ℕ → Action WorkflowRecord
unfolding find replace
fake_update_workflow_state workflow_id expected_version new_state failure_reason revision_count = do
  found ← gets (λ db. find workflow_key workflow_id db.workflows)
  update_row found expected_version (λ w. do
    t ← now
    write_workflow (record (advance t new_state failure_reason w) {
      revision_count = get_or revision_count w.revision_count;
    }))

-- The two repositories that the engine is run with differ in the keywords of this one method: a
-- call of the first with the keyword `revision_count` is a TypeError. All other methods are those of
-- the PostgreSQL repository.
pub data Repo : Type 0 where
  postgres workflow_fake : Repo

unfoldable pub call_update_workflow_state :
    Repo → String → ℕ → WorkflowState → Option String → Option ℕ → Action WorkflowRecord
unfolding update_workflow_state fake_update_workflow_state
call_update_workflow_state postgres workflow_id expected_version new_state failure_reason none =
    update_workflow_state workflow_id expected_version new_state failure_reason
call_update_workflow_state postgres workflow_id expected_version new_state failure_reason (some _) =
    raise type_error
call_update_workflow_state workflow_fake workflow_id expected_version new_state failure_reason
      revision_count =
    fake_update_workflow_state workflow_id expected_version new_state failure_reason revision_count

-- INSERT INTO workflow_transitions: `transition_id` is unique, and `workflow_id` must name a
-- workflow.
unfoldable pub append_transition : WorkflowTransitionRecord → Action WorkflowTransitionRecord
unfolding find
append_transition transition = do
  require_active_transaction
  taken ←
      gets (λ db. is_some (find transition_key transition.transition_id db.workflow_transitions))
  raise_unless (not taken) persistence_duplicate
  known ← gets (λ db. is_some (find workflow_key transition.workflow_id db.workflows))
  raise_unless known persistence_connection
  modify (λ db. record db { workflow_transitions = db.workflow_transitions ++ transition ∷ [] })
  pure transition

abbrev pub transition_of : String → WorkflowTransitionRecord → Bool
transition_of workflow_id t = t.workflow_id =str= workflow_id

-- The column `id`, by which rows of one time are ordered, counts the insertions.
unfoldable pub list_transitions : String → Action (List WorkflowTransitionRecord)
unfolding sort insert_sorted
list_transitions workflow_id = gets (λ db.
    sort (λ a b. leb a.occurred_at b.occurred_at)
      (filter (transition_of workflow_id) db.workflow_transitions))

-- INSERT INTO task_payloads: the primary key is `ref_id`.
unfoldable pub insert_payload : TaskPayload → Action (Unit {0})
unfolding find
insert_payload p = do
  taken ← gets (λ db. is_some (find payload_key p.ref_id db.task_payloads))
  raise_unless (not taken) persistence_connection
  modify (λ db. record db { task_payloads = db.task_payloads ++ p ∷ [] })

-- INSERT INTO tasks: the primary key is `task_id`, and `workflow_id` must name a workflow. (The
-- foreign key of the payload is checked at COMMIT, when the row above is there.)
unfoldable pub insert_task : TaskRecord → Action (Unit {0})
unfolding find
insert_task task = do
  taken ← gets (λ db. is_some (find task_key task.task_id db.tasks))
  raise_unless (not taken) persistence_connection
  known ← gets (λ db. is_some (find workflow_key task.workflow_id db.workflows))
  raise_unless known persistence_connection
  modify (λ db. record db { tasks = db.tasks ++ task ∷ [] })

abbrev pub payload_row : TaskRecord → Option JsonValue → TaskPayload
payload_row task payload = record {
  ref_id = task.payload_reference.ref_id;
  payload = get_or payload (JsonValue.dict JsonFields.end);
}

-- The two statements of `create_task`, without the payload's time of creation, which no query reads,
-- and the question for it to the clock.
unfoldable pub write_task : TaskRecord → TaskPayload → Action TaskRecord
write_task task p = do insert_payload p; insert_task task; pure task

unfoldable pub create_task : TaskRecord → Option JsonValue → Action TaskRecord
create_task task payload = do
  require_active_transaction
  raise_unless (task.payload_reference.ref_kind =str= task_payload_ref_kind) persistence_validation
  write_task task (payload_row task payload)

unfoldable pub get_task : String → Action (Option TaskRecord)
unfolding find
get_task task_id = gets (λ db. find task_key task_id db.tasks)

-- The SET list of the UPDATE of a task: what is NULL among the arguments stays as it is.
abbrev pub amend : ℕ → TaskStatus → Option ℕ → Option String → Option ℕ → TaskRecord → TaskRecord
amend t status attempt failure_reason completed_at task = record task {
  status = status;
  updated_at = t;
  attempt = get_or attempt task.attempt;
  failure_reason = or_else failure_reason task.failure_reason;
  completed_at = or_else completed_at task.completed_at;
}

abbrev pub update_task_row : Option TaskRecord → (TaskRecord → TaskRecord) → Action TaskRecord
update_task_row none f = raise persistence_not_found
update_task_row (some task) f =
    modify (λ db. record db { tasks = replace task_key task.task_id f db.tasks }) >> pure (f task)

unfoldable pub update_task :
    String → TaskStatus → Option ℕ → Option String → Option ℕ → Action TaskRecord
unfolding find replace
update_task task_id status attempt failure_reason completed_at = do
  require_active_transaction
  t ← now
  found ← gets (λ db. find task_key task_id db.tasks)
  update_task_row found (amend t status attempt failure_reason completed_at)

unfoldable pub get_task_payload : PayloadReference → Action JsonValue
unfolding find
get_task_payload reference = do
  raise_unless (reference.ref_kind =str= task_payload_ref_kind) persistence_validation
  found ← gets (λ db. find payload_key reference.ref_id db.task_payloads)
  elim found [ none ↦ raise persistence_not_found | some row ↦ pure row.payload ]
