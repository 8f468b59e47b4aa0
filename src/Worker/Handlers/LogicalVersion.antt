-- ===== src/Worker/Handlers/LogicalVersion.antt =====
-- worker/idempotency.py: `resolve_logical_version`. A task record has no attribute
-- `logical_version`, for which the first lines of the function look.
use agentic_cartoon_demo.Base.{ℕ, Bool, true, false, Option, none, some}
use agentic_cartoon_demo.Config.{TaskType}
use agentic_cartoon_demo.Exceptions.{Result, ok, err, type_error}
use agentic_cartoon_demo.Persistence.Types.{
  JsonValue, JsonFields, TaskRecord, ArtifactRecord, ArtifactType,
}
use agentic_cartoon_demo.Persistence.Session.{Action, pure, ◌>>=◌}
use agentic_cartoon_demo.Persistence.Json.{get_field}
use agentic_cartoon_demo.Persistence.WorkflowRepo.{get_task_payload}
use agentic_cartoon_demo.Persistence.ArtifactRepo.{get_active_artifact, get_artifact_content}
use agentic_cartoon_demo.Worker.Types.{TaskMessage}
use agentic_cartoon_demo.Worker.Handlers.{Outside}

module _ (outside : Outside) where
  -- `int(v)`
  abbrev pub to_int : JsonValue → Result ℕ
  to_int (JsonValue.int n) = ok n
  to_int (JsonValue.bool true) = ok 1
  to_int (JsonValue.bool false) = ok 0
  to_int (JsonValue.str s) = outside.int_of_text s
  to_int _ = err type_error

  abbrev pub to_version : Option JsonValue → Action (Option ℕ)
  to_version none = pure none
  to_version (some v) = do n ← (λ db. (to_int v, db)); pure (some n)

  -- What `_payload_logical_version` makes of the payload: one that cannot be loaded has no version.
  abbrev pub loaded_version : Result JsonFields → Action (Option ℕ)
  loaded_version (ok d) = to_version (get_field "logical_version" d)
  loaded_version (err _) = pure none

  abbrev pub version_of : JsonValue → Action (Option ℕ)
  version_of (JsonValue.dict d) = to_version (get_field "logical_version" d)
  version_of (JsonValue.str s) = loaded_version (outside.loads (JsonValue.str s))
  version_of _ = pure none

  -- `except Exception: return None`
  abbrev pub version_of_payload : Result JsonValue → Action (Option ℕ)
  version_of_payload (ok payload) = version_of payload
  version_of_payload (err _) = pure none

  unfoldable pub payload_logical_version : TaskRecord → Action (Option ℕ)
  unfolding get_task_payload get_field
  payload_logical_version task db =
      let (r, after) = get_task_payload task.payload_reference db in version_of_payload r after

  abbrev pub has_payload_version : TaskType → Bool
  has_payload_version TaskType.generate_scenario = true
  has_payload_version TaskType.review_scenario = true
  has_payload_version _ = false

  abbrev pub content_version : JsonValue → Action (Option ℕ)
  content_version (JsonValue.dict d) = to_version (get_field "logical_version" d)
  content_version _ = pure none

  -- The version in the content of the active scenario.
  abbrev pub scenario_version : Option ArtifactRecord → Action (Option ℕ)
  scenario_version none = pure none
  scenario_version (some a) = do
    content ← get_artifact_content a.artifact_id
    content_version content

  abbrev pub or_one : Option ℕ → ℕ
  or_one none = 1
  or_one (some n) = n

  abbrev pub without_payload : TaskType → TaskMessage → Action ℕ
  without_payload TaskType.review_scenario message = do
    active ← get_active_artifact message.workflow_id ArtifactType.scenario
    version ← scenario_version active
    pure (or_one version)
  without_payload _ message = pure 1

  abbrev pub or_fallback : TaskType → TaskMessage → Option ℕ → Action ℕ
  or_fallback type message none = without_payload type message
  or_fallback type message (some n) = pure n

  abbrev pub read_payload : Bool → TaskRecord → Action (Option ℕ)
  read_payload true task = payload_logical_version task
  read_payload false task = pure none

  -- `resolve_logical_version`
  unfoldable pub resolve_logical_version : TaskType → TaskRecord → TaskMessage → Action ℕ
  unfolding payload_logical_version get_active_artifact get_artifact_content
  resolve_logical_version type task message = do
    payload_version ← read_payload (has_payload_version type) task
    or_fallback type message payload_version
