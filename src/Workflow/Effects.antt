-- ===== src/Workflow/Effects.antt =====
-- What a call of workflow/engine.py can do to the tables, as a relation.
use agentic_cartoon_demo.Base.{ℕ, ◌≡◌, refl, true, String, Option, none, some}
use agentic_cartoon_demo.Config.{TaskType, WorkflowConfig}
use agentic_cartoon_demo.Exceptions.{Result, ok, err}
use agentic_cartoon_demo.Persistence.Types.{WorkflowRecord, WorkflowTransitionRecord}
use agentic_cartoon_demo.Persistence.Session.{Db, Action, transaction}
use agentic_cartoon_demo.Persistence.Session.Laws.{transaction-ok, transaction-err}
use agentic_cartoon_demo.Persistence.WorkflowRepo.Effects.{Created}
use agentic_cartoon_demo.Workflow.Types.{WorkflowState, TransitionSignal, ApprovalAction}
use agentic_cartoon_demo.Workflow.TransitionTable.{TransitionDecision, lookup, lookup_approval}
use agentic_cartoon_demo.Workflow.Executor.Effects.{Dispatched}
use agentic_cartoon_demo.Workflow.Engine.{new_revision}
use agentic_cartoon_demo.Workflow.Engine.Effects.{Change}

-- The reasons for which a row moves: the state it moves to, the revision count that is written, and
-- the task that is enqueued.
pub data Legal (config : WorkflowConfig) (w : WorkflowRecord)
    : WorkflowState → Option ℕ → Option TaskType → Type 0 where
  edge :
      (signal : TransitionSignal) (d : TransitionDecision)
      → lookup w.state signal w.revision_count config.max_scenario_revisions ≡ ok d
      → Legal config w d.to_state (new_revision w d) d.outbox_task_type
  human :
      (action : ApprovalAction)
      → w.state ≡ WorkflowState.awaiting_human_approval
      → Legal config w
          (lookup_approval action).to_state
          none
          (lookup_approval action).outbox_task_type
  initiation :
      w.state ≡ WorkflowState.created
      → Legal config w WorkflowState.collecting none (some TaskType.collect)

-- No table differs.
abbrev pub SameTables : Db → Db → Type 0
SameTables db after =
    after ≡ record db { requests = after.requests; in_transaction = after.in_transaction }

pub data Effect (config : WorkflowConfig) (db after : Db) : Type 0 where
  tables : SameTables db after → Effect config db after
  add :
      (w : WorkflowRecord)
      → Created db after w.workflow_id WorkflowState.created w
      → Effect config db after
  move :
      (w w' : WorkflowRecord) (t : WorkflowTransitionRecord) {to : WorkflowState}
      {reason : Option String} {count : Option ℕ} {type : Option TaskType}
      → Legal config w to count type
      → Change db after w w' t to reason count type
      → Effect config db after
  redispatch :
      (workflow_id : String) (type : TaskType)
      → Dispatched db after workflow_id (some type)
      → Effect config db after

pub data Effects (config : WorkflowConfig) : Db → Db → Type 0 where
  done : {db : Db} → Effects config db db
  then_ :
      {db mid after : Db}
      → Effect config db mid
      → Effects config mid after
      → Effects config db after

module _ (config : WorkflowConfig) where
  pub both : {a b c : Db} → Effects config a b → Effects config b c → Effects config a c
  both done q = q
  both (then_ e p) q = then_ e (both p q)

  -- A call has the effects of its body, between the marks of its transaction; or none at all.
  module _ {ℓ} {A : Type ℓ} (body : Action A) (db : Db)
      (effects : (start : Db) (a : A) (end : Db)
        → body start ≡ (ok a, end)
        → Effects config start end) where
    outcome :
        (r : Result A) (after : Db) → transaction body db ≡ (r, after) → Effects config db after
    outcome (ok a) after h =
        let (inner, ran, closed) = transaction-ok body db h in
        then_ (tables refl) (
          both (effects (record db { in_transaction = true }) a inner ran)
            (then_ (tables (cc closed)) done))
    outcome (err e) after h =
        let undone = transaction-err body db h in then_ (tables (cc undone)) done

    pub transaction-Effects : Effects config db (transaction body db).1
    transaction-Effects = outcome (transaction body db).0 (transaction body db).1 refl

  -- What every effect preserves, every sequence of calls preserves.
  pub preserved {ℓ} :
      (P : Db → Type ℓ)
      → ((db after : Db) → Effect config db after → P db → P after)
      → {db after : Db} → Effects config db after
      → P db
      → P after
  preserved P keeps done p = p
  preserved P keeps (then_ {db = db} {mid = mid} e rest) p =
      preserved P keeps rest (keeps db mid e p)
