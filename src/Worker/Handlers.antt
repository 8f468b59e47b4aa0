-- ===== src/Worker/Handlers.antt =====
-- worker/handlers/base.py: what the handlers of the four stages share. The collector and the agents
-- are parameters: each request to them is answered by some value. The conversion of stored content
-- into an agent's input, the loggers and failure injection are left out.
pub mod LogicalVersion
pub mod Stages
pub mod Review
use agentic_cartoon_demo.Base.{
  ℕ, ◌+◌, Bool, true, false, String, List, [], ◌∷◌, Option, none, some, if◌then◌else◌,
}
use agentic_cartoon_demo.Config.{TaskType}
use agentic_cartoon_demo.Exceptions.{
  Exception, Result, ok, err, ProviderErrorClass, provider_error, agent_input_validation,
  agent_output_validation, runtime_error, task_execution,
}
use agentic_cartoon_demo.Persistence.Types.{
  JsonValue, JsonFields, ArtifactType, ArtifactRecord, ArtifactCreateSpec, InvocationStatus,
  AiInvocationInsertSpec, AiInvocationRecord,
}
use agentic_cartoon_demo.Persistence.Session.{
  Db, Action, pure, raise, and_then, ◌>>=◌, ◌>>◌, now, raise_unless, require_active,
}
use agentic_cartoon_demo.Persistence.Json.{set_field}
use agentic_cartoon_demo.Persistence.ArtifactRepo.{
  create_artifact, get_active_artifact, get_artifact_content, append_ai_invocation,
}
use agentic_cartoon_demo.Worker.Types.{TaskMessage}

-- config/types.py
pub data AgentId : Type 0 where
  topic_selector scenario_generator critic : AgentId

-- `_AGENT_NAMES`
abbrev pub agent_name : AgentId → String
agent_name topic_selector = "topic_selector"
agent_name scenario_generator = "scenario_generator"
agent_name critic = "critic"

-- `ArtifactType.value`
abbrev pub artifact_type_value : ArtifactType → String
artifact_type_value ArtifactType.collected_stories = "COLLECTED_STORIES"
artifact_type_value ArtifactType.topic_selection = "TOPIC_SELECTION"
artifact_type_value ArtifactType.scenario = "SCENARIO"
artifact_type_value ArtifactType.critic_review = "CRITIC_REVIEW"
artifact_type_value ArtifactType.prompt_response = "PROMPT_RESPONSE"

-- collector/types.py and agents/types.py, with the fields that the handlers store. The seven scores
-- of a topic, which are floating-point numbers, stand as the value that is stored.
pub record StoryRecord : Type 0 where
  pub source_id : String
  pub title : Option String
  pub url : Option String
  pub score : Option ℕ
  pub comment_count : Option ℕ

pub record RejectedStoryRecord : Type 0 where
  pub source_id : String
  pub reason_code : String
  pub reason_detail : String

pub record CollectionStats : Type 0 where
  pub fetched_count : ℕ
  pub accepted_count : ℕ
  pub rejected_count : ℕ
  pub candidate_count : ℕ

pub record CollectionResult : Type 0 where
  pub completed_at : ℕ
  pub stories : List StoryRecord
  pub candidates : List StoryRecord
  pub rejected : List RejectedStoryRecord
  pub stats : CollectionStats

pub data TopicSelectionOutcome : Type 0 where
  topic_selected no_suitable_topic : TopicSelectionOutcome

pub record TopicAlternative : Type 0 where
  pub topic : String
  pub rationale : String

pub record TopicSelectionOutput : Type 0 where
  pub outcome : TopicSelectionOutcome
  pub prompt_version : String
  pub selected_topic : Option String
  pub why_interesting : Option String
  pub cartoon_angle : Option String
  pub scores : JsonValue
  pub alternatives : List TopicAlternative

pub record ScenarioPanel : Type 0 where
  pub scene : String
  pub dialogue : String

pub record ScenarioOutput : Type 0 where
  pub topic : String
  pub premise : String
  pub characters : List String
  pub panels : List ScenarioPanel
  pub punchline : String
  pub prompt_version : String

pub data CriticStatus : Type 0 where
  pass revise : CriticStatus

pub record CriticIssue : Type 0 where
  pub dimension : String
  pub description : String

pub record CriticOutput : Type 0 where
  pub status : CriticStatus
  pub issues : List CriticIssue
  pub prompt_version : String

-- What the handlers ask outside the process: the collector, the agents, the configuration of the
-- model providers, `datetime.isoformat`, `json.loads` of a value that is no dict, and `int` of a text.
pub record Outside : Type 0 where
  pub collect_stories : ℕ → Result CollectionResult
  pub select_topic : JsonFields → ℕ → Result TopicSelectionOutput
  pub generate_scenario : JsonFields → ℕ → Result ScenarioOutput
  pub review_scenario : JsonFields → (revision_number : ℕ) → ℕ → Result CriticOutput
  pub provider_id : AgentId → String
  pub model : AgentId → String
  pub isoformat : ℕ → String
  pub loads : JsonValue → Result JsonFields
  pub int_of_text : String → Result ℕ

-- A request, which is answered by the n-th answer.
abbrev pub ask {ℓ} : {A : Type ℓ} → (ℕ → Result A) → Action A
ask answer db = (answer db.requests, record db { requests = db.requests + 1 })

-- `HandlerSupport.create_artifact`: the content with the version of its schema.
abbrev pub artifact_spec : TaskMessage → ArtifactType → JsonFields → ℕ → ArtifactCreateSpec
artifact_spec message type content logical_version = record {
  workflow_id = message.workflow_id;
  artifact_type = type;
  name = artifact_type_value type;
  version = logical_version;
  logical_version = logical_version;
  content = JsonValue.dict (set_field "schema_version" (JsonValue.int 1) content);
  is_active = true;
}

unfoldable pub save_artifact : TaskMessage → ArtifactType → JsonFields → ℕ → Action String
unfolding set_field
save_artifact message type content logical_version = do
  require_active
  a ← create_artifact (artifact_spec message type content logical_version)
  pure a.artifact_id

-- `AiInvocationDraft` with what `append_ai_invocation` adds of the message.
abbrev pub invocation :
    TaskMessage
    → Outside
    → AgentId
    → (prompt_version : String) → (input_artifact_id output_artifact_id : Option String)
    → (started_at completed_at : ℕ) → InvocationStatus
    → AiInvocationInsertSpec
invocation message outside agent prompt_version input_artifact_id output_artifact_id started_at
      completed_at status =
    record {
      workflow_id = message.workflow_id;
      task_id = message.task_id;
      agent_name = agent_name agent;
      agent_version = "1";
      prompt_version = prompt_version;
      provider = outside.provider_id agent;
      model = outside.model agent;
      input_artifact_id = input_artifact_id;
      output_artifact_id = output_artifact_id;
      attempt = message.attempt;
      started_at = started_at;
      completed_at = some completed_at;
      status = status;
      input_tokens = none;
      output_tokens = none;
      estimated_cost_usd = none;
    }

-- `map_agent_error_to_invocation_status`
abbrev pub invocation_status : Exception → InvocationStatus
invocation_status agent_input_validation = InvocationStatus.validation_failed
invocation_status agent_output_validation = InvocationStatus.validation_failed
invocation_status (provider_error ProviderErrorClass.timeout retryable) = InvocationStatus.timeout
invocation_status _ = InvocationStatus.provider_error

-- The classes that `run_agent_stage` catches.
abbrev pub is_agent_failure : Exception → Bool
is_agent_failure agent_input_validation = true
is_agent_failure agent_output_validation = true
is_agent_failure (provider_error error_class retryable) = true
is_agent_failure _ = false

-- `load_active_artifact_json`
abbrev pub content_fields : Outside → JsonValue → Action JsonFields
content_fields outside (JsonValue.dict d) = pure d
content_fields outside raw = λ db. (outside.loads raw, db)

abbrev pub found_artifact : TaskMessage → Option ArtifactRecord → Action ArtifactRecord
found_artifact message none =
    raise (task_execution message.workflow_id message.task_id message.task_type false)
found_artifact message (some a) = pure a

unfoldable pub load_active_artifact :
    Outside → TaskMessage → ArtifactType → Action (ArtifactRecord × JsonFields)
unfolding get_active_artifact get_artifact_content
load_active_artifact outside message type = do
  found ← get_active_artifact message.workflow_id type
  a ← found_artifact message found
  raw ← get_artifact_content a.artifact_id
  content ← content_fields outside raw
  pure (a, content)

module _ {ℓ} {A : Type ℓ} (outside : Outside) (message : TaskMessage) (agent : AgentId) where
  -- The `except` of `run_agent_stage`: the failure is put on record, and raised again.
  abbrev pub audit_failure : (input_artifact_id : Option String) → ℕ → Exception → Action A
  audit_failure input_artifact_id started_at e = do
    completed_at ← now
    _ ← append_ai_invocation (
        invocation message outside agent "unknown" input_artifact_id none started_at completed_at
          (invocation_status e))
    raise e

  abbrev pub after_agent : (input_artifact_id : Option String) → ℕ → Result A → Action A
  after_agent input_artifact_id started_at (ok output) = pure output
  after_agent input_artifact_id started_at (err e) =
      if is_agent_failure e then audit_failure input_artifact_id started_at e else raise e

  -- `run_agent_stage`
  unfoldable pub run_agent_stage :
      (input_artifact_id : Option String) → ℕ → (ℕ → Result A) → Action A
  unfolding append_ai_invocation
  run_agent_stage input_artifact_id started_at call = do
    answer ← ask (λ n. ok (call n))
    after_agent input_artifact_id started_at answer
