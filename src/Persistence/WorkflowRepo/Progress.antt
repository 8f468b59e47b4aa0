-- ===== src/Persistence/WorkflowRepo/Progress.antt =====
-- When the writes of the repositories return.
use agentic_cartoon_demo.Base.{
  ℕ, ◌≡◌, refl, ap, ◌∙◌, Bool, true, false, String, [], ◌∷◌, ◌++◌, Option, none, some, find,
  is_some, ◌=str=◌, str_iff, if◌then◌else◌, arith,
}
use agentic_cartoon_demo.Exceptions.{
  Result, ok, err, persistence_transaction, persistence_validation,
}
use agentic_cartoon_demo.Persistence.Types.{
  JsonValue, WorkflowRecord, WorkflowTransitionRecord, TaskRecord, OutboxInsertSpec,
}
use agentic_cartoon_demo.Persistence.Session.{Db, Action, pure, and_then, ◌>>=◌, ◌>>◌, raise_unless}
use agentic_cartoon_demo.Persistence.Session.Laws.{>>=-step, guard-step}
use agentic_cartoon_demo.Persistence.WorkflowRepo.{
  workflow_key, transition_key, task_key, payload_key, task_payload_ref_kind, payload_row, Repo,
  postgres, workflow_fake, call_update_workflow_state, append_transition, write_task,
  insert_payload, insert_task, create_task,
}
use agentic_cartoon_demo.Persistence.OutboxRepo.{outbox_key, insert}
use agentic_cartoon_demo.Workflow.Types.{WorkflowState}

-- The repository's method has the keywords of the call.
abbrev pub Accepts : Repo → Option ℕ → Type 0
Accepts postgres none = Unit
Accepts postgres (some _) = ⊥
Accepts workflow_fake _ = Unit

-- A call returns, and does not raise.
abbrev pub is_ok {ℓ} : {A : Type ℓ} → Result A → Bool
is_ok (ok _) = true
is_ok (err _) = false

abbrev pub Returns {ℓ} : {A : Type ℓ} → Action A → Db → Type 0
Returns m db = is_ok (m db).0 ≡ true

pub is_ok-value {ℓ} : {A : Type ℓ} (r : Result A) → is_ok r ≡ true → (a : A) × (r ≡ ok a)
is_ok-value (ok a) h = (a, refl)
is_ok-value (err e) h = cc

pub returned {ℓ} :
    {A : Type ℓ} (m : Action A) (db : Db) → Returns m db → (a : A) × (m db ≡ (ok a, (m db).1))
returned m db h = let (a, e) = is_ok-value (m db).0 h in (a, ap (λ r. (r, (m db).1)) e)

-- A sequence returns when its parts do.
pub >>=-Returns {ℓ κ} :
    {A : Type ℓ} {B : Type κ} (m : Action A) (f : A → Action B) (db : Db)
    → Returns m db
    → ((a : A) → m db ≡ (ok a, (m db).1) → Returns (f a) (m db).1)
    → Returns (m >>= f) db
>>=-Returns m f db h k =
    let (a, run) = returned m db h in ap (λ p. is_ok p.0) (>>=-step m f db run refl) ∙ k a run

pub call_update_workflow_state-Returns :
    (repo : Repo) (id : String) (version : ℕ) (state : WorkflowState) (reason : Option String)
    (count : Option ℕ) (db : Db) (w : WorkflowRecord)
    → db.in_transaction ≡ true
    → find workflow_key id db.workflows ≡ some w
    → w.state_version ≡ version
    → Accepts repo count
    → Returns (call_update_workflow_state repo id version state reason count) db
unfolding call_update_workflow_state
call_update_workflow_state-Returns postgres id version state reason none db w active found same a =
    ground (arith, active, found, same)
call_update_workflow_state-Returns postgres id version state reason (some n) db w active found same
      a =
    absurd a
call_update_workflow_state-Returns workflow_fake id version state reason count db w active found
      same a =
    ground (arith, active, found, same)

pub append_transition-Returns :
    (t : WorkflowTransitionRecord) (db : Db)
    → db.in_transaction ≡ true
    → find transition_key t.transition_id db.workflow_transitions ≡ none
    → is_some (find workflow_key t.workflow_id db.workflows) ≡ true
    → Returns (append_transition t) db
unfolding append_transition
append_transition-Returns t db active new known = ground (arith, active, new, known)

insert_payload-Returns :
    (task : TaskRecord) (payload : Option JsonValue) (db : Db)
    → find payload_key task.payload_reference.ref_id db.task_payloads ≡ none
    → insert_payload (payload_row task payload) db
      ≡ (ok tt, record db { task_payloads = db.task_payloads ++ payload_row task payload ∷ [] })
unfolding insert_payload
insert_payload-Returns task payload db new = ground (arith, new)

insert_task-Returns :
    (task : TaskRecord) (db : Db)
    → find task_key task.task_id db.tasks ≡ none
    → is_some (find workflow_key task.workflow_id db.workflows) ≡ true
    → Returns (insert_task task >> pure task) db
unfolding insert_task
insert_task-Returns task db new known = ground (arith, new, known)

pub create_task-Returns :
    (task : TaskRecord) (payload : Option JsonValue) (db : Db)
    → db.in_transaction ≡ true
    → task.payload_reference.ref_kind ≡ task_payload_ref_kind
    → find payload_key task.payload_reference.ref_id db.task_payloads ≡ none
    → find task_key task.task_id db.tasks ≡ none
    → is_some (find workflow_key task.workflow_id db.workflows) ≡ true
    → Returns (create_task task payload) db
unfolding create_task write_task
create_task-Returns task payload db active kind free new known =
    let row = payload_row task payload in
    ap
      (λ c.
        is_ok
          (and_then (if c then ok tt else err persistence_transaction)
            (λ _.
              (raise_unless (task.payload_reference.ref_kind =str= task_payload_ref_kind)
                  persistence_validation
                >> write_task task row))
            db).0)
      active
    ∙ ap (λ p. is_ok p.0)
        (guard-step (task.payload_reference.ref_kind =str= task_payload_ref_kind)
          persistence_validation (write_task task row) db
          ((str_iff task.payload_reference.ref_kind task_payload_ref_kind).1 kind))
    ∙ ap (λ p. is_ok p.0)
        (>>=-step (insert_payload row) (λ _. insert_task task >> pure task) db
          (insert_payload-Returns task payload db free) refl)
    ∙ insert_task-Returns task (record db { task_payloads = db.task_payloads ++ row ∷ [] }) new
        known

pub insert-Returns :
    (spec : OutboxInsertSpec) (db : Db)
    → db.in_transaction ≡ true
    → find outbox_key (db.environment.uuid4 db.requests) db.outbox ≡ none
    → Returns (insert spec) db
unfolding insert
insert-Returns spec db active new = ground (arith, active, new)
