-- ===== src/Workflow/Engine/Progress.antt =====
-- When the transitions of workflow/engine.py return.
use agentic_cartoon_demo.Base.{
  ℕ, ◌+◌, ◌≤◌, ◌≡◌, refl, ap, ◌∙◌, sym, subst, Bool, true, String, List, [], ◌∷◌, ◌++◌, Option,
  none, some, find, find-replace, find-key, replace, is_some, str_refl, arith,
}
use agentic_cartoon_demo.Persistence.Types.{WorkflowRecord, WorkflowTransitionRecord}
use agentic_cartoon_demo.Persistence.Session.{Db, Action, pure, ◌>>=◌}
use agentic_cartoon_demo.Persistence.WorkflowRepo.{
  workflow_key, transition_key, task_key, payload_key, task_payload_ref_kind, Repo,
  call_update_workflow_state, append_transition, create_task,
}
use agentic_cartoon_demo.Persistence.WorkflowRepo.Effects.{
  Rewrote, call_update_workflow_state-Rewrote, append_transition-ok, create_task-ok,
}
use agentic_cartoon_demo.Persistence.WorkflowRepo.Progress.{
  Accepts, is_ok, Returns, returned, >>=-Returns, call_update_workflow_state-Returns,
  append_transition-Returns, create_task-Returns, insert-Returns,
}
use agentic_cartoon_demo.Persistence.OutboxRepo.{outbox_key, insert}
use agentic_cartoon_demo.Workflow.Types.{WorkflowState}
use agentic_cartoon_demo.Workflow.OutboxBuilder.{OutboxBuildResult}
use agentic_cartoon_demo.Workflow.Executor.{Written, relabelled, translated, enqueue, perform}

-- The identifiers that the environment has yet to give are in no table.
pub record IsFresh (db : Db) : Type 0 where
  pub transition_ids :
      (n : ℕ)
      → db.requests ≤ n
      → find transition_key (db.environment.uuid4 n) db.workflow_transitions ≡ none
  pub payload_ids :
      (n : ℕ) → db.requests ≤ n → find payload_key (db.environment.uuid4 n) db.task_payloads ≡ none
  pub task_ids : (n : ℕ) → db.requests ≤ n → find task_key (db.environment.uuid4 n) db.tasks ≡ none
  pub outbox_ids :
      (n : ℕ) → db.requests ≤ n → find outbox_key (db.environment.uuid4 n) db.outbox ≡ none

abbrev pub NewOutboxIds : Db → Type 0
NewOutboxIds db =
    (n : ℕ) → db.requests ≤ n → find outbox_key (db.environment.uuid4 n) db.outbox ≡ none

-- What is to be stored is under an identifier that no row has.
abbrev pub IsClear : Db → String → Option OutboxBuildResult → Type 0
IsClear db id none = Unit
IsClear db id (some o) =
    (o.task_record.payload_reference.ref_kind ≡ task_payload_ref_kind)
    × (find payload_key o.task_record.payload_reference.ref_id db.task_payloads ≡ none)
    × (find task_key o.task_record.task_id db.tasks ≡ none)
    × (o.task_record.workflow_id ≡ id)

abbrev pub is_known : String → Db → Bool
is_known id db = is_some (find workflow_key id db.workflows)

pub enqueue-Returns :
    (id : String) (o : Option OutboxBuildResult) (db : Db)
    → db.in_transaction ≡ true
    → is_known id db ≡ true
    → NewOutboxIds db
    → IsClear db id o
    → Returns (enqueue o) db
unfolding enqueue
enqueue-Returns id none db active known new clear = refl
enqueue-Returns id (some o) db active known new (kind, payload, task, same) =
    >>=-Returns (create_task o.task_record (some o.payload_json))
      (λ _. insert o.outbox_insert >>= λ _. pure (some o.task_spec)) db
      (create_task-Returns o.task_record (some o.payload_json) db active kind payload task
        (ap (λ i. is_known i db) same ∙ known))
      (λ t run.
        let mid = (create_task o.task_record (some o.payload_json) db).1 in
        let stored = (create_task-ok o.task_record (some o.payload_json) db run).1 in
        >>=-Returns (insert o.outbox_insert) (λ _. pure (some o.task_spec)) mid
          (insert-Returns o.outbox_insert mid (ap (λ (d : Db). d.in_transaction) stored ∙ active) (
            ap (λ (d : Db). find outbox_key (d.environment.uuid4 d.requests) d.outbox) stored
            ∙ new db.requests (omega arith)))
          (λ _ _. refl))

translated-Returns {ℓ} :
    {A : Type ℓ} (id : String) (m : Action A) (db : Db) → Returns m db → translated id m db ≡ m db
translated-Returns id m db h =
    let (a, run) = returned m db h in ap (λ p. (relabelled id p.0, p.1)) run ∙ sym run

-- A rewritten row is still there.
Rewrote-known :
    (db after : Db) (id : String) (version : ℕ) (state : WorkflowState) (reason : Option String)
    (count : Option ℕ) (w w' : WorkflowRecord)
    → Rewrote db after id version state reason count w w'
    → is_known id after ≡ true
Rewrote-known db after id version state reason count w w' u =
    let key = find-key workflow_key id db.workflows w u.found in
    let rows = ap (λ (d : Db). d.workflows) u.stored in
    let there =
      find-replace workflow_key w.workflow_id id (λ _. w') db.workflows (λ r _. u.same_id) in
    ground (arith, rows, there, key, u.found, str_refl id)

pub IsClear-kept :
    (db after : Db) (id : String) (o : Option OutboxBuildResult)
    → after.task_payloads ≡ db.task_payloads
    → after.tasks ≡ db.tasks
    → IsClear db id o
    → IsClear after id o
IsClear-kept db after id none p q c = tt
IsClear-kept db after id (some o) p q (kind, payload, task, same) = (
  kind,
  ap (find payload_key o.task_record.payload_reference.ref_id) p ∙ payload,
  ap (find task_key o.task_record.task_id) q ∙ task,
  same,
)

-- The writes of `perform` after the first.
abbrev enqueue_last :
    Option OutboxBuildResult → WorkflowRecord → WorkflowTransitionRecord → Action Written
enqueue_last o u t = enqueue o >>= λ enqueued. pure (u, t, enqueued)

abbrev write_rest :
    WorkflowTransitionRecord → Option OutboxBuildResult → WorkflowRecord → Action Written
write_rest t o u = append_transition t >>= enqueue_last o u

module _ (repo : Repo) (w : WorkflowRecord) (to : WorkflowState) (reason : Option String)
    (count : Option ℕ) (t : WorkflowTransitionRecord) (o : Option OutboxBuildResult) (db : Db)
    (active : db.in_transaction ≡ true)
    (found : find workflow_key w.workflow_id db.workflows ≡ some w) (accepts : Accepts repo count)
    (new : find transition_key t.transition_id db.workflow_transitions ≡ none)
    (same : t.workflow_id ≡ w.workflow_id) (outbox_ids : NewOutboxIds db)
    (clear : IsClear db w.workflow_id o) where
  -- The rest of the writes, after a first one that has changed a row and the number of requests.
  rest-Returns :
      (mid : Db) (rows : List WorkflowRecord)
      → mid ≡ record db { workflows = rows; requests = db.requests + 1 }
      → is_known w.workflow_id mid ≡ true
      → (u : WorkflowRecord) → Returns (write_rest t o u) mid
  rest-Returns mid rows stored known u =
      >>=-Returns (append_transition t) (enqueue_last o u) mid
        (append_transition-Returns t mid (ap (λ (d : Db). d.in_transaction) stored ∙ active)
          (ap (λ (d : Db). find transition_key t.transition_id d.workflow_transitions) stored ∙ new)
          (ap (λ i. is_known i mid) same ∙ known))
        (λ t' run.
          let last = (append_transition t mid).1 in
          let appended = (append_transition-ok t mid run).2 in
          let e : last ≡ record db {
            workflows = rows;
            requests = db.requests + 1;
            workflow_transitions = mid.workflow_transitions ++ t ∷ [];
          } =
            cc (appended, stored) in
          >>=-Returns (enqueue o) (λ enqueued. pure (u, t', enqueued)) last
            (enqueue-Returns w.workflow_id o last (ap (λ (d : Db). d.in_transaction) e ∙ active)
              (ap (λ (d : Db). is_known w.workflow_id d) appended ∙ known)
              (subst NewOutboxIds (sym e) (λ n later. outbox_ids n (omega (arith, later))))
              (IsClear-kept db last w.workflow_id o (ap (λ (d : Db). d.task_payloads) e)
                (ap (λ (d : Db). d.tasks) e) clear))
            (λ _ _. refl))

  pub perform-Returns : Returns (perform repo w to reason count t o) db
  unfolding perform
  perform-Returns =
      let update = call_update_workflow_state repo w.workflow_id w.state_version to reason count in
      let updates =
        call_update_workflow_state-Returns repo w.workflow_id w.state_version to reason count db w
          active found refl accepts in
      let plain = translated-Returns w.workflow_id update db updates in
      >>=-Returns (translated w.workflow_id update) (write_rest t o) db
        (ap (λ p. is_ok p.0) plain ∙ updates)
        (λ u run.
          let (old, rewrote) =
            call_update_workflow_state-Rewrote w.workflow_id w.state_version to reason repo count db
              (sym plain ∙ run) in
          rest-Returns (update db).1 (replace workflow_key old.workflow_id (λ _. u) db.workflows)
            rewrote.stored
            (Rewrote-known db (update db).1 w.workflow_id w.state_version to reason count old u
              rewrote)
            u)
