-- ===== src/Worker/Handlers/Stages.antt =====
-- worker/handlers/collect.py, select_topic.py, generate_scenario.py and review_scenario.py.
use agentic_cartoon_demo.Base.{
  ℕ, false, String, [], ◌∷◌, Option, none, some, if◌then◌else◌, ◌=str=◌,
}
use agentic_cartoon_demo.Config.{TaskType}
use agentic_cartoon_demo.Exceptions.{task_execution}
use agentic_cartoon_demo.Persistence.Types.{
  JsonValue, JsonFields, ArtifactType, InvocationStatus, TaskRecord, WorkflowRecord,
}
use agentic_cartoon_demo.Persistence.Session.{Action, pure, ◌>>=◌, ◌>>◌, now, raise_unless}
use agentic_cartoon_demo.Persistence.Json.{
  get_field, fields, dict_of, list_of, str_or_null, int_or_null, field_or, is_text,
}
use agentic_cartoon_demo.Persistence.WorkflowRepo.{get_workflow}
use agentic_cartoon_demo.Persistence.ArtifactRepo.{append_ai_invocation}
use agentic_cartoon_demo.Workflow.Types.{TransitionSignal}
use agentic_cartoon_demo.Worker.Types.{TaskHandlerOutcome, TaskHandlerResult, TaskMessage}
use agentic_cartoon_demo.Worker.Handlers.{
  AgentId, Outside, StoryRecord, RejectedStoryRecord, CollectionResult, TopicSelectionOutcome,
  TopicAlternative, TopicSelectionOutput, ScenarioPanel, ScenarioOutput, CriticStatus, CriticIssue,
  CriticOutput, ask, save_artifact, invocation, load_active_artifact, run_agent_stage,
}
use agentic_cartoon_demo.Worker.Handlers.LogicalVersion.{resolve_logical_version}

abbrev pub completed : TransitionSignal → String → TaskHandlerResult
completed signal artifact_id = record {
  outcome = TaskHandlerOutcome.completed;
  transition_signal = some signal;
  reason = none;
  result_artifact_id = some artifact_id;
  error_class = none;
}

-- `_story_snapshot`
abbrev pub story_snapshot : StoryRecord → JsonValue
story_snapshot s = dict_of (
    ("source_id", JsonValue.str s.source_id)
    ∷ ("title", str_or_null s.title)
    ∷ ("url", str_or_null s.url)
    ∷ ("score", int_or_null s.score)
    ∷ ("comment_count", int_or_null s.comment_count)
    ∷ [])

abbrev pub rejected_snapshot : RejectedStoryRecord → JsonValue
rejected_snapshot r = dict_of (
    ("source_id", JsonValue.str r.source_id)
    ∷ ("reason_code", JsonValue.str r.reason_code)
    ∷ ("reason_detail", JsonValue.str r.reason_detail)
    ∷ [])

-- `_serialize_collection_result`
abbrev pub serialize_collection_result : Outside → CollectionResult → JsonFields
serialize_collection_result outside r = fields (
    ("collected_at", JsonValue.str (outside.isoformat r.completed_at))
    ∷ (
      "stats",
      dict_of (
          ("fetched_count", JsonValue.int r.stats.fetched_count)
          ∷ ("accepted_count", JsonValue.int r.stats.accepted_count)
          ∷ ("rejected_count", JsonValue.int r.stats.rejected_count)
          ∷ ("candidate_count", JsonValue.int r.stats.candidate_count)
          ∷ []),
    )
    ∷ ("stories", list_of story_snapshot r.stories)
    ∷ ("candidates", list_of story_snapshot r.candidates)
    ∷ ("rejected", list_of rejected_snapshot r.rejected)
    ∷ [])

abbrev pub outcome_value : TopicSelectionOutcome → String
outcome_value TopicSelectionOutcome.topic_selected = "topic_selected"
outcome_value TopicSelectionOutcome.no_suitable_topic = "no_suitable_topic"

abbrev pub alternative_snapshot : TopicAlternative → JsonValue
alternative_snapshot a =
    dict_of (("topic", JsonValue.str a.topic) ∷ ("reason", JsonValue.str a.rationale) ∷ [])

-- `_serialize_topic_output`
abbrev pub serialize_topic_output : TopicSelectionOutput → JsonFields
serialize_topic_output o = fields (
    ("outcome", JsonValue.str (outcome_value o.outcome))
    ∷ ("selected_topic", str_or_null o.selected_topic)
    ∷ ("why_interesting", str_or_null o.why_interesting)
    ∷ ("cartoon_angle", str_or_null o.cartoon_angle)
    ∷ ("scores", o.scores)
    ∷ ("alternatives", list_of alternative_snapshot o.alternatives)
    ∷ ("prompt_version", JsonValue.str o.prompt_version)
    ∷ [])

abbrev pub panel_snapshot : ScenarioPanel → JsonValue
panel_snapshot p =
    dict_of (("caption", JsonValue.str p.scene) ∷ ("dialogue", JsonValue.str p.dialogue) ∷ [])

abbrev pub character_snapshot : String → JsonValue
character_snapshot name =
    dict_of (("name", JsonValue.str name) ∷ ("role", JsonValue.str "character") ∷ [])

-- `_serialize_scenario_output`
abbrev pub serialize_scenario_output : ScenarioOutput → ℕ → JsonFields → JsonFields
serialize_scenario_output o logical_version topic_content =
    let empty = JsonValue.str "" in
    let selected_topic =
      if o.topic =str= ""
      then field_or (get_field "selected_topic" topic_content) empty
      else JsonValue.str o.topic in
    fields (
      ("logical_version", JsonValue.int logical_version)
      ∷ (
        "topic",
        dict_of (
            ("selected_topic", selected_topic)
            ∷ ("why_interesting", field_or (get_field "why_interesting" topic_content) empty)
            ∷ ("cartoon_angle", field_or (get_field "cartoon_angle" topic_content) empty)
            ∷ []),
      )
      ∷ ("premise", JsonValue.str o.premise)
      ∷ ("characters", list_of character_snapshot o.characters)
      ∷ ("panels", list_of panel_snapshot o.panels)
      ∷ ("punchline", JsonValue.str o.punchline)
      ∷ ("prompt_version", JsonValue.str o.prompt_version)
      ∷ [])

abbrev pub critic_value : CriticStatus → String
critic_value CriticStatus.pass = "PASS"
critic_value CriticStatus.revise = "REVISE"

abbrev pub issue_snapshot : CriticIssue → JsonValue
issue_snapshot i =
    dict_of
      (("dimension", JsonValue.str i.dimension) ∷ ("description", JsonValue.str i.description) ∷ [])

-- `_serialize_critic_output`
abbrev pub serialize_critic_output : CriticOutput → JsonFields
serialize_critic_output o = fields (
    ("status", JsonValue.str (critic_value o.status))
    ∷ ("dimensions", dict_of [])
    ∷ ("issues", list_of issue_snapshot o.issues)
    ∷ ("prompt_version", JsonValue.str o.prompt_version)
    ∷ [])

abbrev pub topic_signal : TopicSelectionOutcome → TransitionSignal
topic_signal TopicSelectionOutcome.topic_selected = TransitionSignal.stage_completed
topic_signal TopicSelectionOutcome.no_suitable_topic = TransitionSignal.no_suitable_topic

abbrev pub critic_signal : CriticStatus → TransitionSignal
critic_signal CriticStatus.pass = TransitionSignal.critic_pass
critic_signal CriticStatus.revise = TransitionSignal.critic_revise

module _ (outside : Outside) (message : TaskMessage) where
  -- The success draft of a stage, and the result.
  abbrev pub record_success :
      AgentId → (prompt_version input_artifact_id artifact_id : String) → ℕ → Action (Unit {0})
  record_success agent prompt_version input_artifact_id artifact_id started_at = do
    completed_at ← now
    _ ← append_ai_invocation (
        invocation message outside agent prompt_version (some input_artifact_id) (some artifact_id)
          started_at completed_at InvocationStatus.success)
    pure tt

  -- `CollectTaskHandler.handle`
  unfoldable pub handle_collect : Action TaskHandlerResult
  unfolding save_artifact
  handle_collect = do
    result ← ask outside.collect_stories
    artifact_id ←
        save_artifact message ArtifactType.collected_stories
          (serialize_collection_result outside result) 1
    pure (completed TransitionSignal.stage_completed artifact_id)

  -- `SelectTopicTaskHandler.handle`
  unfoldable pub handle_select_topic : Action TaskHandlerResult
  unfolding load_active_artifact run_agent_stage save_artifact append_ai_invocation
  handle_select_topic = do
    (collected, content) ← load_active_artifact outside message ArtifactType.collected_stories
    started_at ← now
    output ←
        run_agent_stage outside message AgentId.topic_selector (some collected.artifact_id)
          started_at (outside.select_topic content)
    artifact_id ←
        save_artifact message ArtifactType.topic_selection (serialize_topic_output output) 1
    record_success AgentId.topic_selector output.prompt_version collected.artifact_id artifact_id
        started_at
    pure (completed (topic_signal output.outcome) artifact_id)

  -- `GenerateScenarioTaskHandler.handle`
  unfoldable pub handle_generate_scenario : TaskRecord → Action TaskHandlerResult
  unfolding load_active_artifact run_agent_stage save_artifact append_ai_invocation
      resolve_logical_version get_field
  handle_generate_scenario task = do
    (topic, topic_content) ← load_active_artifact outside message ArtifactType.topic_selection
    raise_unless (is_text (get_field "outcome" topic_content) "topic_selected")
        (task_execution message.workflow_id message.task_id TaskType.generate_scenario false)
    started_at ← now
    output ←
        run_agent_stage outside message AgentId.scenario_generator (some topic.artifact_id)
          started_at (outside.generate_scenario topic_content)
    logical_version ← resolve_logical_version outside TaskType.generate_scenario task message
    artifact_id ←
        save_artifact message ArtifactType.scenario
          (serialize_scenario_output output logical_version topic_content) logical_version
    record_success AgentId.scenario_generator output.prompt_version topic.artifact_id artifact_id
        started_at
    pure (completed TransitionSignal.stage_completed artifact_id)

  abbrev pub revision_number : Option WorkflowRecord → ℕ
  revision_number none = 0
  revision_number (some w) = w.revision_count

  -- What `ReviewScenarioTaskHandler.handle` does with the critic's answer.
  unfoldable pub save_review : String → ℕ → CriticOutput → Action TaskHandlerResult
  unfolding save_artifact append_ai_invocation
  save_review scenario_id started_at output = do
    artifact_id ←
        save_artifact message ArtifactType.critic_review (serialize_critic_output output) 1
    record_success AgentId.critic output.prompt_version scenario_id artifact_id started_at
    pure (completed (critic_signal output.status) artifact_id)

  -- `ReviewScenarioTaskHandler.handle`
  unfoldable pub handle_review_scenario : Action TaskHandlerResult
  unfolding load_active_artifact run_agent_stage save_review get_workflow
  handle_review_scenario = do
    (scenario, content) ← load_active_artifact outside message ArtifactType.scenario
    workflow ← get_workflow message.workflow_id
    started_at ← now
    output ←
        run_agent_stage outside message AgentId.critic (some scenario.artifact_id) started_at
          (outside.review_scenario content (revision_number workflow))
    save_review scenario.artifact_id started_at output

  -- The registry of the four handlers.
  unfoldable pub handle : TaskType → TaskRecord → Action TaskHandlerResult
  unfolding handle_collect handle_select_topic handle_generate_scenario handle_review_scenario
  handle TaskType.collect task = handle_collect
  handle TaskType.select_topic task = handle_select_topic
  handle TaskType.generate_scenario task = handle_generate_scenario task
  handle TaskType.review_scenario task = handle_review_scenario
