-- ===== src/Workflow/OutboxBuilder/Effects.antt =====
-- What the builder of workflow/outbox_builder.py returns.
use agentic_cartoon_demo.Base.{ℕ, ◌≡◌, subst, Bool, String, Option, none, some}
use agentic_cartoon_demo.Config.{TaskType}
use agentic_cartoon_demo.Exceptions.{ok}
use agentic_cartoon_demo.Persistence.Types.{WorkflowRecord}
use agentic_cartoon_demo.Persistence.Session.{Db, pure, ◌>>=◌}
use agentic_cartoon_demo.Persistence.Session.Laws.{>>=-ok, pure-ok}
use agentic_cartoon_demo.Persistence.ArtifactRepo.{get_active_artifact}
use agentic_cartoon_demo.Workflow.OutboxBuilder.{
  OutboxBuildResult, outbox_build, build, build_for_decision, resolve_for_task,
}

-- Only requests to the environment were made.
abbrev pub Quiet : Db → Db → Type 0
Quiet db after = after ≡ record db { requests = after.requests }

pub Quiet-trans : (a b c : Db) → Quiet a b → Quiet b c → Quiet a c
Quiet-trans a b c p q = cc (p, q)

-- The specification that was built names one task throughout.
pub record IsCoherent (o : OutboxBuildResult) : Type 0 where
  pub task_id_ : o.outbox_insert.task_id ≡ o.task_record.task_id
  pub workflow_id_ : o.outbox_insert.workflow_id ≡ o.task_record.workflow_id
  pub task_type_ : o.outbox_insert.task_type ≡ o.task_record.task_type
  pub key_ : o.outbox_insert.idempotency_key ≡ o.task_record.idempotency_key

-- What was built is for the workflow, and for the task type that was asked for.
abbrev pub Fits : String → Option TaskType → Option OutboxBuildResult → Type 0
Fits workflow_id none none = Unit
Fits workflow_id (some type) (some o) =
    IsCoherent o × (o.task_record.task_type ≡ type) × (o.task_record.workflow_id ≡ workflow_id)
Fits workflow_id _ _ = ⊥

pub build-Fits :
    (workflow : WorkflowRecord) (type : TaskType) (version attempt : ℕ) (db : Db)
    {o : OutboxBuildResult} {after : Db}
    → build workflow type version attempt db ≡ (ok o, after)
    → Fits workflow.workflow_id (some type) (some o) × Quiet db after
unfolding build outbox_build
build-Fits workflow type version attempt db h =
    (((record { task_id_ = cc; workflow_id_ = cc; task_type_ = cc; key_ = cc }), cc, cc), cc)

pub resolve_for_task-Quiet :
    (workflow_id : String) (type : TaskType) (increment : Bool) (db : Db) {n : ℕ} {after : Db}
    → resolve_for_task workflow_id type increment db ≡ (ok n, after)
    → Quiet db after
unfolding resolve_for_task get_active_artifact
resolve_for_task-Quiet workflow_id TaskType.collect increment db h = cc
resolve_for_task-Quiet workflow_id TaskType.select_topic increment db h = cc
resolve_for_task-Quiet workflow_id TaskType.generate_scenario increment db h = cc
resolve_for_task-Quiet workflow_id TaskType.review_scenario increment db h = cc

pub build_for_decision-Fits :
    (workflow : WorkflowRecord) (type : Option TaskType) (increment : Bool) (db : Db)
    {o : Option OutboxBuildResult} {after : Db}
    → build_for_decision workflow type increment db ≡ (ok o, after)
    → Fits workflow.workflow_id type o × Quiet db after
unfolding build_for_decision
build_for_decision-Fits workflow none increment db {o = none} h = (tt, cc)
build_for_decision-Fits workflow none increment db {o = some o} h = cc
build_for_decision-Fits workflow (some type) increment db {o = o} {after = after} h =
    let (n, s, h₁, k₁) =
      >>=-ok (resolve_for_task workflow.workflow_id type increment)
        (λ n. build workflow type n 1 >>= λ result. pure (some result)) db h in
    let (result, s', h₂, k₂) =
      >>=-ok (build workflow type n 1) (λ result. pure (some result)) s k₁ in
    let (built, quiet) = build-Fits workflow type n 1 s h₂ in
    let (same, ended) = pure-ok (some result) s' k₂ in
    (
      subst (Fits workflow.workflow_id (some type)) same built,
      subst (Quiet db) ended (
          Quiet-trans db s s' (resolve_for_task-Quiet workflow.workflow_id type increment db h₁)
            quiet),
    )
