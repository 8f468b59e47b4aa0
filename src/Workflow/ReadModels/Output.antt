-- ===== src/Workflow/ReadModels/Output.antt =====
-- workflow/read_models.py: `assemble_output`, and `get_workflow_output` of workflow/engine.py.
use agentic_cartoon_demo.Base.{
  ℕ, suc, Bool, not, ◌&&◌, String, text_or, List, [], ◌∷◌, ◌++◌, length, Option, none, some,
  if◌then◌else◌,
}
use agentic_cartoon_demo.Persistence.Types.{
  JsonValue, JsonItems, JsonFields, ArtifactType, ArtifactRecord, WorkflowRecord,
  WorkflowTransitionRecord, AiInvocationRecord,
}
use agentic_cartoon_demo.Persistence.Json.{
  get_field, fields, dict_of, list_of, str_or_null, field_or,
}
use agentic_cartoon_demo.Persistence.Session.{Action, pure, ◌>>=◌}
use agentic_cartoon_demo.Persistence.WorkflowRepo.{get_workflow, list_transitions}
use agentic_cartoon_demo.Persistence.ArtifactRepo.{
  get_active_artifact, get_artifact_content, list_ai_invocations,
}
use agentic_cartoon_demo.Workflow.Types.{WorkflowState, state_eq, is_terminal}
use agentic_cartoon_demo.Workflow.ReadModels.{
  WorkflowOutput, state_value, lower_value, invocation_status_value, known,
}

-- `d.get(name, default)`
abbrev pub get_default : String → JsonFields → JsonValue → JsonValue
get_default name d v = elim (get_field name d) [ none ↦ v | some w ↦ w ]

abbrev pub empty_text : JsonValue
empty_text = JsonValue.str ""

abbrev pub empty_list : JsonValue
empty_list = JsonValue.array JsonItems.nil

abbrev pub empty_dict : JsonValue
empty_dict = JsonValue.dict JsonFields.end

abbrev pub items_length : JsonItems → ℕ
items_length JsonItems.nil = 0
items_length (JsonItems.item _ rest) = suc (items_length rest)

-- `len(stories)`, where the stories are a list.
abbrev pub length_of : Option JsonValue → ℕ
length_of (some (JsonValue.array l)) = items_length l
length_of _ = 0

abbrev pub story_count : JsonValue → ℕ
story_count (JsonValue.dict d) = length_of (get_field "stories" d)
story_count _ = 0

-- A section that is there only if the content is a dict.
abbrev pub of_dict :
    String
    → (ArtifactRecord → JsonFields → List (String × JsonValue))
    → ArtifactRecord
    → JsonValue
    → List (String × JsonValue)
of_dict name f a (JsonValue.dict d) = (name, dict_of (f a d)) ∷ []
of_dict name f a _ = []

abbrev pub topic_section : ArtifactRecord → JsonFields → List (String × JsonValue)
topic_section a d =
    ("artifact_id", JsonValue.str a.artifact_id)
    ∷ ("version", JsonValue.int a.version)
    ∷ ("selected_topic", get_default "selected_topic" d empty_text)
    ∷ ("rationale", field_or (get_field "rationale" d) (get_default "why_interesting" d empty_text))
    ∷ ("confidence", get_default "confidence" d JsonValue.null)
    ∷ ("content", JsonValue.dict d)
    ∷ []

abbrev pub scenario_section : ArtifactRecord → JsonFields → List (String × JsonValue)
scenario_section a d =
    ("artifact_id", JsonValue.str a.artifact_id)
    ∷ ("version", JsonValue.int a.version)
    ∷ ("logical_version", JsonValue.int a.logical_version)
    ∷ ("premise", get_default "premise" d empty_text)
    ∷ ("characters", get_default "characters" d empty_list)
    ∷ ("panels", get_default "panels" d empty_list)
    ∷ ("punchline", get_default "punchline" d JsonValue.null)
    ∷ ("content", JsonValue.dict d)
    ∷ []

abbrev pub critic_section : ArtifactRecord → JsonFields → List (String × JsonValue)
critic_section a d =
    ("artifact_id", JsonValue.str a.artifact_id)
    ∷ ("version", JsonValue.int a.version)
    ∷ ("verdict", field_or (get_field "verdict" d) (get_default "status" d empty_text))
    ∷ ("dimensions", get_default "dimensions" d empty_dict)
    ∷ ("content", JsonValue.dict d)
    ∷ []

-- A section of the package: nothing without an active artifact.
abbrev pub section_of :
    (ArtifactRecord → JsonValue → List (String × JsonValue))
    → Option ArtifactRecord
    → Action (List (String × JsonValue))
section_of f none = pure []
section_of f (some a) = do content ← get_artifact_content a.artifact_id; pure (f a content)

abbrev pub section :
    String
    → ArtifactType
    → (ArtifactRecord → JsonValue → List (String × JsonValue))
    → Action (List (String × JsonValue))
section workflow_id type f = do active ← get_active_artifact workflow_id type; section_of f active

-- The end of `assemble_output`: whether the workflow is complete, and why it failed.
abbrev pub is_complete : WorkflowState → Bool
is_complete state = state_eq state WorkflowState.approved

abbrev pub output_failure : WorkflowRecord → Option String
output_failure w =
    if is_terminal w.state && not (state_eq w.state WorkflowState.approved)
    then some (text_or w.failure_reason (lower_value w.state))
    else none

module _ (isoformat : ℕ → String) where
  abbrev pub date : ℕ → JsonValue
  date t = JsonValue.str (isoformat t)

  abbrev pub date_or_null : Option ℕ → JsonValue
  date_or_null none = JsonValue.null
  date_or_null (some t) = date t

  abbrev pub source_section : ArtifactRecord → JsonValue → List (String × JsonValue)
  source_section a content =
      (
        "source",
        dict_of (
            ("artifact_id", JsonValue.str a.artifact_id)
            ∷ ("version", JsonValue.int a.version)
            ∷ ("logical_version", JsonValue.int a.logical_version)
            ∷ ("story_count", JsonValue.int (story_count content))
            ∷ ("collected_at", date a.created_at)
            ∷ ("content", content)
            ∷ []),
      )
      ∷ []

  abbrev pub invocation_summary : AiInvocationRecord → JsonValue
  invocation_summary i = dict_of (
      ("invocation_id", JsonValue.str i.invocation_id)
      ∷ ("agent_name", JsonValue.str i.invocation.agent_name)
      ∷ ("provider", JsonValue.str i.invocation.provider)
      ∷ ("model", JsonValue.str i.invocation.model)
      ∷ ("status", JsonValue.str (invocation_status_value i.invocation.status))
      ∷ ("started_at", date i.invocation.started_at)
      ∷ ("completed_at", date_or_null i.invocation.completed_at)
      ∷ [])

  abbrev pub execution_section :
      WorkflowRecord
      → List WorkflowTransitionRecord
      → List AiInvocationRecord
      → List (String × JsonValue)
  execution_section w transitions invocations =
      (
        "execution",
        dict_of (
            ("workflow_id", JsonValue.str w.workflow_id)
            ∷ ("state", JsonValue.str (state_value w.state))
            ∷ ("state_version", JsonValue.int w.state_version)
            ∷ ("revision_count", JsonValue.int w.revision_count)
            ∷ ("created_at", date w.created_at)
            ∷ ("updated_at", date w.updated_at)
            ∷ ("transition_count", JsonValue.int (length transitions))
            ∷ ("failure_reason", str_or_null w.failure_reason)
            ∷ ("invocations", list_of invocation_summary invocations)
            ∷ []),
      )
      ∷ []

  abbrev pub output : WorkflowRecord → List (String × JsonValue) → WorkflowOutput
  output w sections = record {
    workflow_id = w.workflow_id;
    state = w.state;
    package_ = fields sections;
    is_complete = is_complete w.state;
    failure_reason = output_failure w;
  }

  -- `assemble_output`
  unfoldable pub assemble_output : WorkflowRecord → Action WorkflowOutput
  unfolding get_active_artifact get_artifact_content list_transitions list_ai_invocations get_field
      state_eq
  assemble_output w = do
    source ← section w.workflow_id ArtifactType.collected_stories source_section
    topic ← section w.workflow_id ArtifactType.topic_selection (of_dict "topic" topic_section)
    scenario ← section w.workflow_id ArtifactType.scenario (of_dict "scenario" scenario_section)
    critic ← section w.workflow_id ArtifactType.critic_review (of_dict "critic" critic_section)
    transitions ← list_transitions w.workflow_id
    invocations ← list_ai_invocations w.workflow_id none
    let execution = execution_section w transitions invocations
    pure (output w (source ++ (topic ++ (scenario ++ (critic ++ execution)))))

  -- `get_workflow_output`
  unfoldable pub get_workflow_output : String → Action WorkflowOutput
  unfolding get_workflow assemble_output
  get_workflow_output workflow_id = do
    found ← get_workflow workflow_id
    w ← known workflow_id found
    assemble_output w
