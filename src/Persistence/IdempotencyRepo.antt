-- ===== src/Persistence/IdempotencyRepo.antt =====
-- persistence/repos/idempotency.py: completion records that are inserted once.
use agentic_cartoon_demo.Base.{String, [], ◌∷◌, ◌++◌, Option, none, some, find}
use agentic_cartoon_demo.Persistence.Types.{IdempotencyRecord}
use agentic_cartoon_demo.Persistence.Session.{
  Action, pure, gets, modify, ◌>>=◌, ◌>>◌, now, require_active_transaction,
}

pub record IdempotencyInsertSpec : Type 0 where
  pub idempotency_key : String
  pub workflow_id : String
  pub task_id : String
  pub result_artifact_id : Option String

pub data IdempotencyOutcome : Type 0 where
  inserted duplicate : IdempotencyOutcome

pub record IdempotencyInsertResult : Type 0 where
  pub outcome : IdempotencyOutcome
  pub existing : IdempotencyRecord

abbrev pub idempotency_key : IdempotencyRecord → String
idempotency_key r = r.idempotency_key

-- `INSERT … ON CONFLICT DO NOTHING RETURNING`, and the SELECT of the row that is in the way.
abbrev pub insert_or_find :
    Option IdempotencyRecord → IdempotencyRecord → Action IdempotencyInsertResult
insert_or_find (some r) row = pure (record { outcome = IdempotencyOutcome.duplicate; existing = r })
insert_or_find none row =
    modify (λ db. record db { idempotency = db.idempotency ++ row ∷ [] })
    >> pure (record { outcome = IdempotencyOutcome.inserted; existing = row })

unfoldable pub try_insert : IdempotencyInsertSpec → Action IdempotencyInsertResult
unfolding find
try_insert spec = do
  require_active_transaction
  t ← now
  found ← gets (λ db. find idempotency_key spec.idempotency_key db.idempotency)
  insert_or_find found (record {
    idempotency_key = spec.idempotency_key;
    workflow_id = spec.workflow_id;
    task_id = spec.task_id;
    completed_at = t;
    result_artifact_id = spec.result_artifact_id;
  })

unfoldable pub get_by_key : String → Action (Option IdempotencyRecord)
unfolding find
get_by_key key = gets (λ db. find idempotency_key key db.idempotency)
