-- ===== src/Persistence/OutboxRepo/Effects.antt =====
-- What an insertion into the outbox leaves behind when it returns.
use agentic_cartoon_demo.Base.{◌+◌, ◌≡◌, inl, inr, [], ◌∷◌, ◌++◌, none, Option-cases, find, arith}
use agentic_cartoon_demo.Exceptions.{ok}
use agentic_cartoon_demo.Persistence.Types.{OutboxEntry, OutboxInsertSpec, OutboxStatus}
use agentic_cartoon_demo.Persistence.Session.{Db}
use agentic_cartoon_demo.Persistence.OutboxRepo.{outbox_key, insert}

-- The new row is the last one, is pending, and carries the values that were given.
pub record Inserted (db after : Db) (spec : OutboxInsertSpec) (e : OutboxEntry) : Type 0 where
  pub fresh : find outbox_key e.outbox_id db.outbox ≡ none
  pub same_workflow : e.workflow_id ≡ spec.workflow_id
  pub same_task : e.task_id ≡ spec.task_id
  pub same_type : e.task_type ≡ spec.task_type
  pub same_key : e.idempotency_key ≡ spec.idempotency_key
  pub unpublished : e.status ≡ OutboxStatus.pending
  pub stored : after ≡ record db { outbox = db.outbox ++ e ∷ []; requests = db.requests + 1 + 1 }

pub insert-Inserted :
    (spec : OutboxInsertSpec) (db : Db) {e : OutboxEntry} {after : Db}
    → insert spec db ≡ (ok e, after)
    → Inserted db after spec e
unfolding insert
insert-Inserted spec db h =
    elim (Option-cases (find outbox_key (db.environment.uuid4 db.requests) db.outbox)) [
      | inl new ↦ ground arith
      | inr (old, there) ↦ absurd (ground arith)
    ]
