-- ===== src/Workflow/Executor/Effects.antt =====
-- What a workflow mutation leaves behind when it returns.
use agentic_cartoon_demo.Base.{
  ℕ, ◌+◌, ◌≡◌, String, List, [], ◌∷◌, ◌++◌, Option, none, some, find, find-key, replace, ap, ◌∙◌,
  sym, subst, subst₂, append-nil, arith,
}
use agentic_cartoon_demo.Config.{TaskType}
use agentic_cartoon_demo.Exceptions.{Result, ok, err}
use agentic_cartoon_demo.Persistence.Types.{
  WorkflowRecord, WorkflowTransitionRecord, TaskRecord, TaskPayload, OutboxEntry,
}
use agentic_cartoon_demo.Persistence.Session.{Db, Action, pure, ◌>>=◌}
use agentic_cartoon_demo.Persistence.Session.Laws.{>>=-ok, pure-ok}
use agentic_cartoon_demo.Persistence.WorkflowRepo.{
  workflow_key, task_key, payload_row, Repo, call_update_workflow_state, append_transition,
  create_task,
}
use agentic_cartoon_demo.Persistence.WorkflowRepo.Effects.{
  Rewrote, call_update_workflow_state-Rewrote, append_transition-ok, create_task-ok,
}
use agentic_cartoon_demo.Persistence.OutboxRepo.{insert}
use agentic_cartoon_demo.Persistence.OutboxRepo.Effects.{Inserted, insert-Inserted}
use agentic_cartoon_demo.Workflow.Types.{WorkflowState}
use agentic_cartoon_demo.Workflow.OutboxBuilder.{OutboxTaskSpec, OutboxBuildResult}
use agentic_cartoon_demo.Workflow.OutboxBuilder.Effects.{Fits}
use agentic_cartoon_demo.Workflow.Executor.{relabelled, translated, enqueue, perform}

-- The rows that are added for a dispatch: none, or a new task and an outbox entry that names it.
pub record IsTicket (task : TaskRecord) (e : OutboxEntry) : Type 0 where
  pub same_task : e.task_id ≡ task.task_id
  pub same_workflow : e.workflow_id ≡ task.workflow_id
  pub same_type : e.task_type ≡ task.task_type
  pub same_key : e.idempotency_key ≡ task.idempotency_key

pub data Dispatch (old : List TaskRecord) (workflow_id : String)
    : Option TaskType → List TaskRecord → List OutboxEntry → Type 0 where
  nothing : Dispatch old workflow_id none [] []
  ticket :
      {type : TaskType} (task : TaskRecord) (e : OutboxEntry)
      → find task_key task.task_id old ≡ none
      → task.task_type ≡ type
      → task.workflow_id ≡ workflow_id
      → IsTicket task e
      → Dispatch old workflow_id (some type) (task ∷ []) (e ∷ [])

-- Only the tables of tasks, payloads and outbox entries differ, by what was added.
pub record Dispatched (db after : Db) (workflow_id : String) (type : Option TaskType) : Type 0 where
  pub added_tasks : List TaskRecord
  pub added_entries : List OutboxEntry
  pub dispatch : Dispatch db.tasks workflow_id type added_tasks added_entries
  pub tasks_ : after.tasks ≡ db.tasks ++ added_tasks
  pub outbox_ : after.outbox ≡ db.outbox ++ added_entries
  pub workflows_ : after.workflows ≡ db.workflows
  pub transitions_ : after.workflow_transitions ≡ db.workflow_transitions
  pub artifacts_ : after.artifacts ≡ db.artifacts
  pub idempotency_ : after.idempotency ≡ db.idempotency
  pub leases_ : after.task_leases ≡ db.task_leases

nothing-Dispatched :
    (db after : Db) (workflow_id : String) → after ≡ db → Dispatched db after workflow_id none
nothing-Dispatched db after workflow_id e = record {
  added_tasks = [];
  added_entries = [];
  dispatch = nothing;
  tasks_ = rw (append-nil db.tasks) (ap (λ (d : Db). d.tasks) e);
  outbox_ = rw (append-nil db.outbox) (ap (λ (d : Db). d.outbox) e);
  workflows_ = ap (λ (d : Db). d.workflows) e;
  transitions_ = ap (λ (d : Db). d.workflow_transitions) e;
  artifacts_ = ap (λ (d : Db). d.artifacts) e;
  idempotency_ = ap (λ (d : Db). d.idempotency) e;
  leases_ = ap (λ (d : Db). d.task_leases) e;
}

ticket-Dispatched :
    (db mid after : Db) (workflow_id : String) (type : TaskType) (o : OutboxBuildResult)
    (p : TaskPayload) (e : OutboxEntry)
    → Fits workflow_id (some type) (some o)
    → find task_key o.task_record.task_id db.tasks ≡ none
    → mid ≡ record db {
      task_payloads = db.task_payloads ++ p ∷ [];
      tasks = db.tasks ++ o.task_record ∷ [];
    }
    → Inserted mid after o.outbox_insert e
    → Dispatched db after workflow_id (some type)
ticket-Dispatched db mid after workflow_id type o p e c new written i = record {
  added_tasks = o.task_record ∷ [];
  added_entries = e ∷ [];
  dispatch = ticket o.task_record e new c.1 c.2 (ground arith);
  tasks_ = cc (i.stored, written);
  outbox_ = cc (i.stored, written);
  workflows_ = cc (i.stored, written);
  transitions_ = cc (i.stored, written);
  artifacts_ = cc (i.stored, written);
  idempotency_ = cc (i.stored, written);
  leases_ = cc (i.stored, written);
}

pub enqueue-Dispatched :
    (workflow_id : String) (type : Option TaskType) (o : Option OutboxBuildResult)
    → Fits workflow_id type o
    → (db : Db) {r : Option OutboxTaskSpec} {after : Db} → enqueue o db ≡ (ok r, after)
    → Dispatched db after workflow_id type
unfolding enqueue
enqueue-Dispatched workflow_id none none c db {after = after} h =
    nothing-Dispatched db after workflow_id cc
enqueue-Dispatched workflow_id none (some o) c db h = absurd c
enqueue-Dispatched workflow_id (some type) none c db h = absurd c
enqueue-Dispatched workflow_id (some type) (some o) c db {after = after} h =
    let (task, s, h₁, k₁) =
      >>=-ok (create_task o.task_record (some o.payload_json))
        (λ _. insert o.outbox_insert >>= λ _. pure (some o.task_spec)) db h in
    let (e, s', h₂, k₂) = >>=-ok (insert o.outbox_insert) (λ _. pure (some o.task_spec)) s k₁ in
    let (new, written) = create_task-ok o.task_record (some o.payload_json) db h₁ in
    ticket-Dispatched db s after workflow_id type o
      (payload_row o.task_record (some o.payload_json)) e c new written
      (subst (λ d. Inserted s d o.outbox_insert e) (ap (λ p. p.1) k₂)
        (insert-Inserted o.outbox_insert s h₂))

relabelled-ok {ℓ} :
    {A : Type ℓ} (workflow_id : String) (r : Result A) {a : A}
    → relabelled workflow_id r ≡ ok a
    → r ≡ ok a
relabelled-ok workflow_id (ok a) h = h
relabelled-ok workflow_id (err e) h = cc

translated-ok {ℓ} :
    {A : Type ℓ} (workflow_id : String) (m : Action A) (db : Db) {a : A} {after : Db}
    → translated workflow_id m db ≡ (ok a, after)
    → m db ≡ (ok a, after)
translated-ok workflow_id m db h =
    λ i. (relabelled-ok workflow_id (m db).0 (ap (λ p. p.0) h) i, (h i).1)

-- The row `w` has become `w'` and the transition `t` is the last of the history; the dispatch is
-- added; nothing else has changed.
pub record Moved (db after : Db) (type : Option TaskType) (w w' : WorkflowRecord)
    (t : WorkflowTransitionRecord) : Type 0 where
  pub found : find workflow_key w.workflow_id db.workflows ≡ some w
  pub same_id : w'.workflow_id ≡ w.workflow_id
  pub new_version : w'.state_version ≡ w.state_version + 1
  pub workflows_ : after.workflows ≡ replace workflow_key w.workflow_id (λ _. w') db.workflows
  pub transitions_ : after.workflow_transitions ≡ db.workflow_transitions ++ t ∷ []
  pub added_tasks : List TaskRecord
  pub added_entries : List OutboxEntry
  pub dispatch : Dispatch db.tasks w.workflow_id type added_tasks added_entries
  pub tasks_ : after.tasks ≡ db.tasks ++ added_tasks
  pub outbox_ : after.outbox ≡ db.outbox ++ added_entries
  pub artifacts_ : after.artifacts ≡ db.artifacts
  pub idempotency_ : after.idempotency ≡ db.idempotency
  pub leases_ : after.task_leases ≡ db.task_leases

moved :
    (db s₁ s₂ after : Db) (w w' : WorkflowRecord) (t : WorkflowTransitionRecord)
    (workflow_id : String) (version : ℕ) (state : WorkflowState) (reason : Option String)
    (count : Option ℕ) (type : Option TaskType)
    → Rewrote db s₁ workflow_id version state reason count w w'
    → s₂ ≡ record s₁ { workflow_transitions = s₁.workflow_transitions ++ t ∷ [] }
    → Dispatched s₂ after workflow_id type
    → Moved db after type w w' t
moved db s₁ s₂ after w w' t workflow_id version state reason count type u appended d = record {
  found = cc (u.found, find-key workflow_key workflow_id db.workflows w u.found);
  same_id = u.same_id;
  new_version = u.new_version;
  workflows_ = cc (u.stored, appended, d.workflows_);
  transitions_ = cc (u.stored, appended, d.transitions_);
  added_tasks = d.added_tasks;
  added_entries = d.added_entries;
  dispatch =
      subst₂ (λ ts id. Dispatch ts id type d.added_tasks d.added_entries) (cc (u.stored, appended))
        (sym (find-key workflow_key workflow_id db.workflows w u.found)) d.dispatch;
  tasks_ = cc (u.stored, appended, d.tasks_);
  outbox_ = cc (u.stored, appended, d.outbox_);
  artifacts_ = cc (u.stored, appended, d.artifacts_);
  idempotency_ = cc (u.stored, appended, d.idempotency_);
  leases_ = cc (u.stored, appended, d.leases_);
}

module _ (repo : Repo) (workflow : WorkflowRecord) (new_state : WorkflowState)
    (reason : Option String) (count : Option ℕ) where
  pub perform-Moved :
      (t : WorkflowTransitionRecord) (type : Option TaskType) (o : Option OutboxBuildResult)
      (db : Db) {r : WorkflowRecord × WorkflowTransitionRecord × Option OutboxTaskSpec} {after : Db}
      → Fits workflow.workflow_id type o
      → perform repo workflow new_state reason count t o db ≡ (ok r, after)
      → (w : WorkflowRecord) × (mid : Db) × Rewrote db mid workflow.workflow_id
          workflow.state_version new_state reason count w r.0
        × Moved db after type w r.0 t
        × (r.1 ≡ t)
  unfolding perform
  perform-Moved t type o db {r = r} {after = after} c h =
      let update =
        call_update_workflow_state repo workflow.workflow_id workflow.state_version new_state reason
          count in
      let (w', s₁, h₁, k₁) =
        >>=-ok (translated workflow.workflow_id update)
          (λ u. append_transition t >>= λ persisted.
            enqueue o >>= λ enqueued. pure (u, persisted, enqueued))
          db h in
      let (t', s₂, h₂, k₂) =
        >>=-ok (append_transition t)
          (λ persisted. enqueue o >>= λ enqueued. pure (w', persisted, enqueued)) s₁ k₁ in
      let (q, s₃, h₃, k₃) = >>=-ok (enqueue o) (λ enqueued. pure (w', t', enqueued)) s₂ k₂ in
      let (w, u) =
        call_update_workflow_state-Rewrote workflow.workflow_id workflow.state_version new_state
          reason repo count db (translated-ok workflow.workflow_id update db h₁) in
      let (written, ended) = pure-ok (w', t', q) s₃ k₃ in
      let renamed =
        subst
          (λ x.
            Rewrote db s₁ workflow.workflow_id workflow.state_version new_state reason count w x)
          (ap (λ p. p.0) written) u in
      (
        w,
        s₁,
        renamed,
        moved db s₁ s₂ after w r.0 t workflow.workflow_id workflow.state_version new_state reason
            count type renamed (append_transition-ok t s₁ h₂).2
            (subst (λ d. Dispatched s₂ d workflow.workflow_id type) ended
              (enqueue-Dispatched workflow.workflow_id type o c s₂ h₃)),
        sym (ap (λ p. p.1) written) ∙ (append_transition-ok t s₁ h₂).0,
      )
