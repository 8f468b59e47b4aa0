-- ===== src/Persistence/WorkflowRepo/Effects.antt =====
-- What each write of the workflow repository leaves behind when it returns.
use agentic_cartoon_demo.Base.{
  ℕ, ◌+◌, ◌≡◌, inl, inr, String, [], ◌∷◌, ◌++◌, Option, none, some, Option-cases, find, replace,
  get_or, arith,
}
use agentic_cartoon_demo.Exceptions.{ok}
use agentic_cartoon_demo.Persistence.Types.{
  JsonValue, WorkflowRecord, WorkflowTransitionRecord, TaskRecord, TaskPayload,
}
use agentic_cartoon_demo.Persistence.Session.{Db, pure, ◌>>◌}
use agentic_cartoon_demo.Persistence.Session.Laws.{>>=-ok}
use agentic_cartoon_demo.Persistence.WorkflowRepo.{
  workflow_key, transition_key, task_key, Repo, postgres, workflow_fake, write_task, insert_payload,
  insert_task, payload_row, create_workflow, call_update_workflow_state, append_transition,
  create_task,
}
use agentic_cartoon_demo.Workflow.Types.{WorkflowState}

-- The row `w` under the identifier has become `w'`, and no other row and no other table changed.
pub record Rewrote (db after : Db) (workflow_id : String) (expected_version : ℕ)
    (new_state : WorkflowState) (failure_reason : Option String) (revision_count : Option ℕ)
    (w w' : WorkflowRecord) : Type 0 where
  pub found : find workflow_key workflow_id db.workflows ≡ some w
  pub version : w.state_version ≡ expected_version
  pub same_id : w'.workflow_id ≡ w.workflow_id
  pub new_state_ : w'.state ≡ new_state
  pub new_version : w'.state_version ≡ w.state_version + 1
  pub new_reason : w'.failure_reason ≡ failure_reason
  pub new_count : w'.revision_count ≡ get_or revision_count w.revision_count
  pub stored : after ≡ record db {
    workflows = replace workflow_key w.workflow_id (λ _. w') db.workflows;
    requests = db.requests + 1;
  }

module _ (workflow_id : String) (version : ℕ) (state : WorkflowState) (reason : Option String) where
  pub call_update_workflow_state-Rewrote :
      (repo : Repo) (count : Option ℕ) (db : Db) {w' : WorkflowRecord} {after : Db}
      → call_update_workflow_state repo workflow_id version state reason count db ≡ (ok w', after)
      → (w : WorkflowRecord) × Rewrote db after workflow_id version state reason count w w'
  unfolding call_update_workflow_state
  call_update_workflow_state-Rewrote postgres none db h =
      elim (Option-cases (find workflow_key workflow_id db.workflows)) [
        | inl missing ↦ absurd (ground arith)
        | inr (w, there) ↦ (w, ground arith)
      ]
  call_update_workflow_state-Rewrote postgres (some n) db h = cc
  call_update_workflow_state-Rewrote workflow_fake count db h =
      elim (Option-cases (find workflow_key workflow_id db.workflows)) [
        | inl missing ↦ absurd (ground arith)
        | inr (w, there) ↦ (w, ground arith)
      ]

-- An appended transition is new, and is the last one.
pub append_transition-ok :
    (t : WorkflowTransitionRecord) (db : Db) {t' : WorkflowTransitionRecord} {after : Db}
    → append_transition t db ≡ (ok t', after)
    → (t' ≡ t)
      × (find transition_key t.transition_id db.workflow_transitions ≡ none)
      × (after ≡ record db { workflow_transitions = db.workflow_transitions ++ t ∷ [] })
unfolding append_transition
append_transition-ok t db h =
    elim (Option-cases (find transition_key t.transition_id db.workflow_transitions)) [
      | inl new ↦ (ground arith, new, ground arith)
      | inr (old, there) ↦ absurd (ground arith)
    ]

insert_payload-ok :
    (p : TaskPayload) (db : Db) {u : Unit {0}} {after : Db}
    → insert_payload p db ≡ (ok u, after)
    → after ≡ record db { task_payloads = db.task_payloads ++ p ∷ [] }
unfolding insert_payload
insert_payload-ok p db h = ground arith

insert_task-ok :
    (task : TaskRecord) (db : Db) {u : Unit {0}} {after : Db}
    → insert_task task db ≡ (ok u, after)
    → (find task_key task.task_id db.tasks ≡ none)
      × (after ≡ record db { tasks = db.tasks ++ task ∷ [] })
unfolding insert_task
insert_task-ok task db h = elim (Option-cases (find task_key task.task_id db.tasks)) [
  | inl new ↦ (new, ground arith)
  | inr (old, there) ↦ absurd (ground arith)
]

write_task-ok :
    (task : TaskRecord) (p : TaskPayload) (db : Db) {task' : TaskRecord} {after : Db}
    → write_task task p db ≡ (ok task', after)
    → (find task_key task.task_id db.tasks ≡ none)
      × (after
          ≡ record db { task_payloads = db.task_payloads ++ p ∷ []; tasks = db.tasks ++ task ∷ [] })
unfolding write_task
write_task-ok task p db h =
    let (u, s, h₁, k₁) = >>=-ok (insert_payload p) (λ _. insert_task task >> pure task) db h in
    let (v, s', h₂, k₂) = >>=-ok (insert_task task) (λ _. pure task) s k₁ in
    let e₁ = insert_payload-ok p db h₁ in
    let (new, e₂) = insert_task-ok task s h₂ in (rw e₁ at new, cc (e₁, e₂, k₂))

-- A created task is new, and is the last row; its payload is the last of the payloads.
pub create_task-ok :
    (task : TaskRecord) (payload : Option JsonValue) (db : Db) {task' : TaskRecord} {after : Db}
    → create_task task payload db ≡ (ok task', after)
    → (find task_key task.task_id db.tasks ≡ none)
      × (after ≡ record db {
        task_payloads = db.task_payloads ++ payload_row task payload ∷ [];
        tasks = db.tasks ++ task ∷ [];
      })
unfolding create_task
create_task-ok task payload db {task' = task'} {after = after} h =
    write_task-ok task (payload_row task payload) db {task' = task'} {after = after} (ground arith)

-- A created workflow is new, and is the last row, at version 1 with no revision.
pub record Created (db after : Db) (workflow_id : String) (state : WorkflowState)
    (w : WorkflowRecord) : Type 0 where
  pub fresh : find workflow_key workflow_id db.workflows ≡ none
  pub id : w.workflow_id ≡ workflow_id
  pub initial : w.state ≡ state
  pub first_version : w.state_version ≡ 1
  pub no_revision : w.revision_count ≡ 0
  pub stored : after ≡ record db { workflows = db.workflows ++ w ∷ []; requests = db.requests + 1 }

pub create_workflow-Created :
    (workflow_id : String) (state : WorkflowState) (db : Db) {w : WorkflowRecord} {after : Db}
    → create_workflow workflow_id state db ≡ (ok w, after)
    → Created db after workflow_id state w
unfolding create_workflow
create_workflow-Created workflow_id state db h =
    elim (Option-cases (find workflow_key workflow_id db.workflows)) [
      | inl new ↦ ground arith
      | inr (old, there) ↦ absurd (ground arith)
    ]
