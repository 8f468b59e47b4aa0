-- ===== src/Workflow/Engine/Effects.antt =====
-- What the three methods of workflow/engine.py leave behind when they return.
use agentic_cartoon_demo.Base.{ℕ, ◌≡◌, ap, ◌∙◌, subst, String, Option, some, find, get_or}
use agentic_cartoon_demo.Config.{TaskType}
use agentic_cartoon_demo.Exceptions.{ok}
use agentic_cartoon_demo.Persistence.Types.{WorkflowRecord, WorkflowTransitionRecord}
use agentic_cartoon_demo.Persistence.Session.{Db}
use agentic_cartoon_demo.Persistence.WorkflowRepo.{workflow_key, Repo}
use agentic_cartoon_demo.Workflow.Types.{WorkflowState}
use agentic_cartoon_demo.Workflow.OutboxBuilder.{OutboxTaskSpec, OutboxBuildResult}
use agentic_cartoon_demo.Workflow.OutboxBuilder.Effects.{Quiet, Fits}
use agentic_cartoon_demo.Workflow.Executor.{perform}
use agentic_cartoon_demo.Workflow.Executor.Effects.{Dispatch, Moved, perform-Moved}
use agentic_cartoon_demo.Workflow.Engine.{build_transition}

-- The audit record that is built for a move.
pub record Audits (t : WorkflowTransitionRecord) (workflow_id : String) (from to : WorkflowState)
    : Type 0 where
  pub workflow_id_ : t.workflow_id ≡ workflow_id
  pub from_ : t.from_state ≡ from
  pub to_ : t.to_state ≡ to

pub build_transition-Audits :
    (workflow_id : String) (from to : WorkflowState) (reason : String) (actor : Option String)
    (db : Db) {t : WorkflowTransitionRecord} {after : Db}
    → build_transition workflow_id from to reason actor db ≡ (ok t, after)
    → Audits t workflow_id from to × Quiet db after
unfolding build_transition
build_transition-Audits workflow_id from to reason actor db h =
    (record { workflow_id_ = cc; from_ = cc; to_ = cc }, cc)

-- One move of one workflow: its row, its audit record, its dispatch, and nothing else.
pub record Change (db after : Db) (w w' : WorkflowRecord) (t : WorkflowTransitionRecord)
    (to : WorkflowState) (reason : Option String) (count : Option ℕ) (type : Option TaskType)
    : Type 0 where
  pub moved : Moved db after type w w' t
  pub new_state : w'.state ≡ to
  pub new_reason : w'.failure_reason ≡ reason
  pub new_count : w'.revision_count ≡ get_or count w.revision_count
  pub audits : Audits t w.workflow_id w.state to

-- `Moved` does not read the number of requests.
Moved-Quiet :
    (db mid after : Db) (type : Option TaskType) (w w' : WorkflowRecord)
    (t : WorkflowTransitionRecord)
    → Quiet db mid
    → Moved mid after type w w' t
    → Moved db after type w w' t
Moved-Quiet db mid after type w w' t q m = record {
  found = cc (m.found, q);
  same_id = m.same_id;
  new_version = m.new_version;
  workflows_ = cc (m.workflows_, q);
  transitions_ = cc (m.transitions_, q);
  added_tasks = m.added_tasks;
  added_entries = m.added_entries;
  dispatch =
      subst (λ ts. Dispatch ts w.workflow_id type m.added_tasks m.added_entries) (cc q) m.dispatch;
  tasks_ = cc (m.tasks_, q);
  outbox_ = cc (m.outbox_, q);
  artifacts_ = cc (m.artifacts_, q);
  idempotency_ = cc (m.idempotency_, q);
  leases_ = cc (m.leases_, q);
}

-- The row that was read is the row that is rewritten.
pub perform-Change :
    (repo : Repo) (w : WorkflowRecord) (to : WorkflowState) (reason : Option String)
    (count : Option ℕ) (t : WorkflowTransitionRecord) (type : Option TaskType)
    (o : Option OutboxBuildResult) (db mid : Db)
    {r : WorkflowRecord × WorkflowTransitionRecord × Option OutboxTaskSpec} {after : Db}
    → find workflow_key w.workflow_id db.workflows ≡ some w
    → Quiet db mid
    → Fits w.workflow_id type o
    → Audits t w.workflow_id w.state to
    → perform repo w to reason count t o mid ≡ (ok r, after)
    → Change db after w r.0 t to reason count type × (r.1 ≡ t)
perform-Change repo w to reason count t type o db mid {r = r} {after = after} found q fits audits
      h =
    let (v, s, u, m, same) = perform-Moved repo w to reason count t type o mid fits h in
    let e : v ≡ w = cc (found, q, u.found) in
    (
      record {
        moved =
            Moved-Quiet db mid after type w r.0 t q (subst (λ x. Moved mid after type x r.0 t) e m);
        new_state = u.new_state_;
        new_reason = u.new_reason;
        new_count = u.new_count ∙ ap (λ (x : WorkflowRecord). get_or count x.revision_count) e;
        audits = audits;
      },
      same,
    )
