-- ===== src/Workflow/OutboxBuilder.antt =====
-- workflow/outbox_builder.py: what is written for a task that is to be dispatched.
pub mod Effects
use agentic_cartoon_demo.Base.{
  ℕ, ◌+◌, max, Bool, true, false, String, ◌+str+◌, show_nat, Option, none, some, if◌then◌else◌,
}
use agentic_cartoon_demo.Config.{TaskType, task_type_value}
use agentic_cartoon_demo.Exceptions.{ok}
use agentic_cartoon_demo.Persistence.Types.{
  JsonValue, JsonFields, PayloadReference, TaskStatus, TaskRecord, ArtifactRecord, ArtifactType,
  OutboxInsertSpec, WorkflowRecord,
}
use agentic_cartoon_demo.Persistence.Session.{
  Db, Action, pure, gets, and_then, ◌>>=◌, now, new_uuid,
}
use agentic_cartoon_demo.Persistence.WorkflowRepo.{task_payload_ref_kind}
use agentic_cartoon_demo.Persistence.ArtifactRepo.{get_active_artifact}

-- workflow/types.py
pub record OutboxTaskSpec : Type 0 where
  pub task_id : String
  pub workflow_id : String
  pub task_type : TaskType
  pub attempt : ℕ
  pub payload_reference : String
  pub idempotency_key : String
  pub created_at : ℕ

pub record OutboxBuildResult : Type 0 where
  pub task_spec : OutboxTaskSpec
  pub task_record : TaskRecord
  pub outbox_insert : OutboxInsertSpec
  pub payload_json : JsonValue

-- `f"{workflow_id}:{task_type.value}:{logical_version}"`
unfoldable pub format_idempotency_key : String → TaskType → ℕ → String
unfolding task_type_value show_nat
format_idempotency_key workflow_id task_type logical_version =
    workflow_id
    +str+ (":" +str+ (task_type_value task_type +str+ (":" +str+ show_nat logical_version)))

-- `_payload_for_task_type`
abbrev pub payload_for_task_type : TaskType → ℕ → JsonValue
payload_for_task_type TaskType.collect logical_version = JsonValue.dict JsonFields.end
payload_for_task_type TaskType.select_topic logical_version = JsonValue.dict JsonFields.end
payload_for_task_type _ logical_version =
    JsonValue.dict
      (JsonFields.field "logical_version" (JsonValue.int logical_version) JsonFields.end)

-- `artifact.logical_version if artifact else 0`, at least 1, and one more for an increment.
abbrev pub next_version : Option ArtifactRecord → Bool → ℕ
next_version active increment =
    let base = max (elim active [ none ↦ 0 | some a ↦ a.logical_version ]) 1 in
    if increment then base + 1 else base

-- `LogicalVersionTracker.resolve_for_task`
unfoldable pub resolve_for_task : String → TaskType → Bool → Action ℕ
resolve_for_task workflow_id TaskType.collect increment = pure 1
resolve_for_task workflow_id TaskType.select_topic increment = pure 1
resolve_for_task workflow_id _ increment = do
  active ← get_active_artifact workflow_id ArtifactType.scenario
  pure (next_version active increment)

-- The fields of the three records that `OutboxSpecBuilder.build` fills.
unfoldable pub outbox_build : String → TaskType → ℕ → ℕ → String → ℕ → OutboxBuildResult
outbox_build workflow_id task_type logical_version attempt task_id t =
    let key = format_idempotency_key workflow_id task_type logical_version in
    let reference : PayloadReference = record {
      ref_id = task_id;
      ref_kind = task_payload_ref_kind;
    } in
    record {
      task_spec = record {
        task_id = task_id;
        workflow_id = workflow_id;
        task_type = task_type;
        attempt = attempt;
        payload_reference = task_id;
        idempotency_key = key;
        created_at = t;
      };
      task_record = record {
        task_id = task_id;
        workflow_id = workflow_id;
        task_type = task_type;
        attempt = attempt;
        status = TaskStatus.pending;
        payload_reference = reference;
        idempotency_key = key;
        created_at = t;
        updated_at = t;
        completed_at = none;
        failure_reason = none;
      };
      outbox_insert = record {
        workflow_id = workflow_id;
        task_id = task_id;
        task_type = task_type;
        payload_reference = reference;
        idempotency_key = key;
      };
      payload_json = payload_for_task_type task_type logical_version;
    }

-- `OutboxSpecBuilder.build`
unfoldable pub build : WorkflowRecord → TaskType → ℕ → ℕ → Action OutboxBuildResult
unfolding outbox_build
build workflow task_type logical_version attempt = do
  t ← now
  task_id ← new_uuid
  pure (outbox_build workflow.workflow_id task_type logical_version attempt task_id t)

-- `OutboxSpecBuilder.build_for_decision`, of the two fields that it reads of either decision.
unfoldable pub build_for_decision :
    WorkflowRecord → Option TaskType → Bool → Action (Option OutboxBuildResult)
unfolding resolve_for_task build
build_for_decision workflow none increment = pure none
build_for_decision workflow (some task_type) increment = do
  logical_version ← resolve_for_task workflow.workflow_id task_type increment
  result ← build workflow task_type logical_version 1
  pure (some result)
