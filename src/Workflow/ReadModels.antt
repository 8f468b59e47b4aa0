-- ===== src/Workflow/ReadModels.antt =====
-- workflow/read_models.py, and the methods of workflow/engine.py that answer queries.
-- `datetime.isoformat` is a parameter.
pub mod Output
pub mod Summary
pub mod Timeline
mod Tests
use agentic_cartoon_demo.Base.{
  ℕ, Bool, true, false, not, ◌&&◌, String, ◌+str+◌, show_nat, text_leb, text_or, List, [], ◌∷◌,
  ◌++◌, map, length, sort, insert_sorted, Option, none, some, get_or, if◌then◌else◌, ltb, eqb,
}
use agentic_cartoon_demo.Config.{task_type_value}
use agentic_cartoon_demo.Exceptions.{ok, err, workflow_not_found}
use agentic_cartoon_demo.Persistence.Types.{
  JsonValue, JsonItems, JsonFields, ArtifactType, ArtifactRecord, WorkflowRecord,
  WorkflowTransitionRecord, TaskRecord, InvocationStatus, AiInvocationRecord,
}
use agentic_cartoon_demo.Persistence.Json.{
  get_field, fields, dict_of, list_of, str_or_null, field_or,
}
use agentic_cartoon_demo.Persistence.Session.{Db, Action, pure, raise, gets, and_then, ◌>>=◌}
use agentic_cartoon_demo.Persistence.WorkflowRepo.{Repo, get_workflow, list_transitions}
use agentic_cartoon_demo.Persistence.ArtifactRepo.{
  get_active_artifact, get_artifact_content, list_ai_invocations,
}
use agentic_cartoon_demo.Persistence.Listings.{list_tasks_for_workflow}
use agentic_cartoon_demo.Workflow.Types.{WorkflowState, state_eq, is_terminal}

-- `WorkflowState.value`
abbrev pub state_value : WorkflowState → String
state_value WorkflowState.created = "CREATED"
state_value WorkflowState.collecting = "COLLECTING"
state_value WorkflowState.collected = "COLLECTED"
state_value WorkflowState.selecting_topic = "SELECTING_TOPIC"
state_value WorkflowState.no_suitable_topic = "NO_SUITABLE_TOPIC"
state_value WorkflowState.topic_selected = "TOPIC_SELECTED"
state_value WorkflowState.generating_scenario = "GENERATING_SCENARIO"
state_value WorkflowState.scenario_generated = "SCENARIO_GENERATED"
state_value WorkflowState.reviewing = "REVIEWING"
state_value WorkflowState.revision_required = "REVISION_REQUIRED"
state_value WorkflowState.review_passed = "REVIEW_PASSED"
state_value WorkflowState.awaiting_human_approval = "AWAITING_HUMAN_APPROVAL"
state_value WorkflowState.approved = "APPROVED"
state_value WorkflowState.rejected = "REJECTED"
state_value WorkflowState.review_failed = "REVIEW_FAILED"
state_value WorkflowState.failed = "FAILED"
state_value WorkflowState.failed_permanently = "FAILED_PERMANENTLY"

-- `state.value.lower()`, of the terminal states but APPROVED, where it is used.
abbrev pub lower_value : WorkflowState → String
lower_value WorkflowState.no_suitable_topic = "no_suitable_topic"
lower_value WorkflowState.rejected = "rejected"
lower_value WorkflowState.review_failed = "review_failed"
lower_value WorkflowState.failed = "failed"
lower_value WorkflowState.failed_permanently = "failed_permanently"
lower_value s = state_value s

-- `InvocationStatus.value`
abbrev pub invocation_status_value : InvocationStatus → String
invocation_status_value InvocationStatus.success = "SUCCESS"
invocation_status_value InvocationStatus.validation_failed = "VALIDATION_FAILED"
invocation_status_value InvocationStatus.provider_error = "PROVIDER_ERROR"
invocation_status_value InvocationStatus.timeout = "TIMEOUT"

-- workflow/types.py
pub record WorkflowStatus : Type 0 where
  pub workflow_id : String
  pub state : WorkflowState
  pub state_version : ℕ
  pub created_at : ℕ
  pub updated_at : ℕ
  pub revision_count : ℕ
  pub failure_reason : Option String

pub record WorkflowHistory : Type 0 where
  pub workflow_id : String
  pub transitions : List WorkflowTransitionRecord

pub record WorkflowOutput : Type 0 where
  pub workflow_id : String
  pub state : WorkflowState
  pub package_ : JsonFields
  pub is_complete : Bool
  pub failure_reason : Option String

pub data EventType : Type 0 where
  transition task_enqueued ai_invocation : EventType

-- With the one attribute, `stable_id`, that the assembler gives.
pub record TimelineEvent : Type 0 where
  pub occurred_at : ℕ
  pub event_type : EventType
  pub summary : String
  pub stable_id : String

pub record WorkflowTimeline : Type 0 where
  pub workflow_id : String
  pub events : List TimelineEvent

-- `assemble_status`
abbrev pub assemble_status : WorkflowRecord → WorkflowStatus
assemble_status w = record {
  workflow_id = w.workflow_id;
  state = w.state;
  state_version = w.state_version;
  created_at = w.created_at;
  updated_at = w.updated_at;
  revision_count = w.revision_count;
  failure_reason = w.failure_reason;
}

-- `assemble_history`
unfoldable pub assemble_history : String → Action WorkflowHistory
unfolding list_transitions
assemble_history workflow_id = do
  transitions ← list_transitions workflow_id
  pure (record { workflow_id = workflow_id; transitions = transitions })

-- `_EVENT_TYPE_RANK`
abbrev pub event_type_rank : EventType → ℕ
event_type_rank transition = 0
event_type_rank task_enqueued = 1
event_type_rank ai_invocation = 2

abbrev pub transition_event : WorkflowTransitionRecord → TimelineEvent
transition_event t = record {
  occurred_at = t.occurred_at;
  event_type = transition;
  summary =
      state_value t.from_state
      +str+ (" → " +str+ (state_value t.to_state +str+ (": " +str+ t.reason)));
  stable_id = t.transition_id;
}

abbrev pub task_event : TaskRecord → TimelineEvent
task_event t = record {
  occurred_at = t.created_at;
  event_type = task_enqueued;
  summary = task_type_value t.task_type +str+ (" attempt " +str+ show_nat t.attempt);
  stable_id = t.task_id;
}

abbrev pub invocation_event : AiInvocationRecord → TimelineEvent
invocation_event i = record {
  occurred_at = i.invocation.started_at;
  event_type = ai_invocation;
  summary = i.invocation.agent_name +str+ (" " +str+ invocation_status_value i.invocation.status);
  stable_id = i.invocation_id;
}

-- `<=` of the keys of two events, which are compared as tuples.
abbrev pub event_leb : TimelineEvent → TimelineEvent → Bool
event_leb a b =
    if eqb a.occurred_at b.occurred_at
    then (if eqb (event_type_rank a.event_type) (event_type_rank b.event_type)
        then text_leb a.stable_id b.stable_id
        else ltb (event_type_rank a.event_type) (event_type_rank b.event_type))
    else ltb a.occurred_at b.occurred_at

-- `assemble_timeline`
unfoldable pub assemble_timeline : Repo → String → Action WorkflowTimeline
unfolding list_transitions list_tasks_for_workflow list_ai_invocations sort
assemble_timeline repo workflow_id = do
  transitions ← list_transitions workflow_id
  tasks ← gets (list_tasks_for_workflow repo workflow_id)
  invocations ← list_ai_invocations workflow_id none
  let events =
      map transition_event transitions ++ (map task_event tasks ++ map invocation_event invocations)
  pure (record { workflow_id = workflow_id; events = sort event_leb events })

-- What the engine answers for an identifier without a row.
abbrev pub known : String → Option WorkflowRecord → Action WorkflowRecord
known workflow_id none = raise (workflow_not_found workflow_id)
known workflow_id (some w) = pure w

-- `get_workflow_status`
unfoldable pub get_workflow_status : String → Action WorkflowStatus
unfolding get_workflow
get_workflow_status workflow_id = do
  found ← get_workflow workflow_id
  w ← known workflow_id found
  pure (assemble_status w)

-- `get_workflow_history`
unfoldable pub get_workflow_history : String → Action WorkflowHistory
unfolding get_workflow assemble_history
get_workflow_history workflow_id = do
  found ← get_workflow workflow_id
  _ ← known workflow_id found
  assemble_history workflow_id

-- `get_workflow_timeline`
unfoldable pub get_workflow_timeline : Repo → String → Action WorkflowTimeline
unfolding get_workflow assemble_timeline
get_workflow_timeline repo workflow_id = do
  found ← get_workflow workflow_id
  _ ← known workflow_id found
  assemble_timeline repo workflow_id
