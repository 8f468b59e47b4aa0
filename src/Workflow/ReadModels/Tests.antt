-- ===== src/Workflow/ReadModels/Tests.antt =====
-- Queries of a small database.
use agentic_cartoon_demo.Base.{◌≡◌, refl, String, [], ◌∷◌, none, find, true}
use agentic_cartoon_demo.Config.{TaskType}
use agentic_cartoon_demo.Exceptions.{ok}
use agentic_cartoon_demo.Persistence.Types.{
  ArtifactType, WorkflowTransitionRecord, TaskStatus, JsonValue, JsonFields,
}
use agentic_cartoon_demo.Persistence.Session.{Db}
use agentic_cartoon_demo.Persistence.WorkflowRepo.{workflow_fake}
use agentic_cartoon_demo.Workflow.Types.{WorkflowState}
use agentic_cartoon_demo.Workflow.Tests.{empty_db, row_in}
use agentic_cartoon_demo.Workflow.ReadModels.{
  WorkflowTimeline, WorkflowOutput, get_workflow_timeline,
}
use agentic_cartoon_demo.Workflow.ReadModels.Output.{get_workflow_output}
use agentic_cartoon_demo.Workflow.ReadModels.Timeline.{
  IsChronological, get_workflow_timeline-IsChronological,
}
use agentic_cartoon_demo.Workflow.ReadModels.Summary.{IsSummary, get_workflow_output-IsSummary}

abbrev moved : String → WorkflowState → WorkflowTransitionRecord
moved id state = record {
  transition_id = id;
  workflow_id = "wf";
  from_state = WorkflowState.created;
  to_state = state;
  reason = "initiate";
  occurred_at = 5;
  actor = none;
}

-- Two transitions of one time, and a task that is older; an artifact with its content.
abbrev busy : Db
busy = record empty_db {
  workflows = row_in WorkflowState.collecting ∷ [];
  workflow_transitions =
      moved "b" WorkflowState.collected ∷ moved "a" WorkflowState.collecting ∷ [];
  tasks =
      record {
        task_id = "task";
        workflow_id = "wf";
        task_type = TaskType.collect;
        attempt = 1;
        status = TaskStatus.dispatched;
        payload_reference = record { ref_id = "task"; ref_kind = "task_payload" };
        idempotency_key = "wf:COLLECT:1";
        created_at = 4;
        updated_at = 4;
        completed_at = none;
        failure_reason = none;
      }
      ∷ [];
  artifacts =
      record {
        artifact_id = "artifact";
        workflow_id = "wf";
        artifact_type = ArtifactType.collected_stories;
        name = "COLLECTED_STORIES";
        version = 1;
        logical_version = 1;
        is_active = true;
        created_at = 5;
      }
      ∷ [];
  artifact_content =
      record { artifact_id = "artifact"; content = JsonValue.dict JsonFields.end } ∷ [];
}

IsChronological-example :
    (t : WorkflowTimeline) × (get_workflow_timeline workflow_fake "wf" busy ≡ (ok t, busy))
    × IsChronological workflow_fake "wf" busy t
unfolding find
IsChronological-example =
    get_workflow_timeline-IsChronological workflow_fake "wf" busy (row_in WorkflowState.collecting)
      refl

IsSummary-example :
    (o : WorkflowOutput) × (get_workflow_output (λ _. "1970-01-01T00:00:00") "wf" busy
      ≡ (ok o, busy))
    × IsSummary (row_in WorkflowState.collecting) o
unfolding find
IsSummary-example =
    get_workflow_output-IsSummary (λ _. "1970-01-01T00:00:00") busy (refl, tt) "wf"
      (row_in WorkflowState.collecting) refl
