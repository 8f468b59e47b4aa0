-- ===== src/Persistence/Session.antt =====
-- persistence/transaction.py, persistence/session.py and persistence/repos/_base.py: the database
-- with its session, methods as state passing with exceptions, and transactions.
pub mod Laws
pub mod Keeps
use agentic_cartoon_demo.Base.{
  ℕ, ◌+◌, Bool, true, false, String, List, [], Option, none, some, if◌then◌else◌, ◌≡◌, refl,
}
use agentic_cartoon_demo.Exceptions.{
  Exception, Result, ok, err, persistence_transaction, runtime_error,
}
use agentic_cartoon_demo.Persistence.Types.{
  WorkflowRecord, WorkflowTransitionRecord, TaskRecord, TaskPayload, ArtifactRecord,
  ArtifactContent, AiInvocationRecord, OutboxEntry, TaskLease, IdempotencyRecord,
}

-- What the process asks of its environment: `str(uuid4())` and `datetime.now(UTC)`. The n-th request
-- is answered by the n-th value, and nothing is assumed of the values.
pub record Environment : Type 0 where
  pub uuid4 : ℕ → String
  pub utcnow : ℕ → ℕ

-- The tables, whether the session is in a transaction, and the number of requests made so far.
pub record Db : Type 0 where
  pub workflows : List WorkflowRecord
  pub workflow_transitions : List WorkflowTransitionRecord
  pub tasks : List TaskRecord
  pub task_payloads : List TaskPayload
  pub artifacts : List ArtifactRecord
  pub artifact_content : List ArtifactContent
  pub ai_invocations : List AiInvocationRecord
  pub outbox : List OutboxEntry
  pub idempotency : List IdempotencyRecord
  pub task_leases : List TaskLease
  pub in_transaction : Bool
  pub environment : Environment
  pub requests : ℕ

-- The state comes back after a raise too: what was written stays until the transaction rolls back.
abbrev pub Action {ℓ} : Type ℓ → Type ℓ
Action A = Db → Result A × Db

module _ {ℓ} {A : Type ℓ} where
  abbrev pub pure : A → Action A
  pure a db = (ok a, db)

  abbrev pub raise : Exception → Action A
  raise e db = (err e, db)

  abbrev pub gets : (Db → A) → Action A
  gets f db = (ok (f db), db)

abbrev pub modify : (Db → Db) → Action (Unit {0})
modify f db = (ok tt, f db)

module _ {ℓ κ} {A : Type ℓ} {B : Type κ} where
  abbrev pub and_then : Result A → (A → Action B) → Action B
  and_then (ok a) f = f a
  and_then (err e) f = raise e

  infixl 5 ◌>>=◌
  abbrev pub ◌>>=◌ : Action A → (A → Action B) → Action B
  m >>= f = λ db. let (r, after) = m db in and_then r f after

infixl 5 ◌>>◌
abbrev pub ◌>>◌ {ℓ} : {B : Type ℓ} → Action (Unit {0}) → Action B → Action B
m >> k = m >>= λ _. k

abbrev pub raise_unless : Bool → Exception → Action (Unit {0})
raise_unless c e db = (if c then ok tt else err e, db)

-- `str(uuid4())`
abbrev pub new_uuid : Action String
new_uuid db = (ok (db.environment.uuid4 db.requests), record db { requests = db.requests + 1 })

-- `datetime.now(UTC)`
abbrev pub now : Action ℕ
now db = (ok (db.environment.utcnow db.requests), record db { requests = db.requests + 1 })

-- `PostgresTransactionManager.is_in_transaction`
abbrev pub is_in_transaction : Action Bool
is_in_transaction = gets (λ db. db.in_transaction)

-- `_require_active_transaction` of the repositories.
abbrev pub require_active_transaction : Action (Unit {0})
require_active_transaction db = raise_unless db.in_transaction persistence_transaction db

-- `TransactionGuard.require_active` of the engine and of the worker.
abbrev pub require_active : Action (Unit {0})
require_active db = raise_unless db.in_transaction runtime_error db

-- `PostgresTransactionManager.transaction` round a body: BEGIN, then COMMIT or ROLLBACK. A rollback
-- brings the tables back; the requests to the environment stay made.
abbrev pub finish_transaction {ℓ} : {A : Type ℓ} → Db → Result A → Db → Result A × Db
finish_transaction before (ok a) after = (ok a, record after { in_transaction = false })
finish_transaction before (err e) after = (err e, record before { requests = after.requests })

-- A nested transaction is refused.
abbrev pub begin {ℓ} : {A : Type ℓ} → (nested : Bool) → Action A → Action A
begin true body db = raise persistence_transaction db
begin false body db =
    let (r, after) = body (record db { in_transaction = true }) in finish_transaction db r after

unfoldable pub transaction {ℓ} : {A : Type ℓ} → Action A → Action A
transaction body db = begin db.in_transaction body db
