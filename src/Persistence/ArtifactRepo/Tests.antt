-- ===== src/Persistence/ArtifactRepo/Tests.antt =====
-- Artifacts of a small database.
use agentic_cartoon_demo.Base.{◌≡◌, refl, true, [], ◌∷◌, inl, some, find}
use agentic_cartoon_demo.Exceptions.{ok, err, persistence_duplicate}
use agentic_cartoon_demo.Persistence.Types.{
  ArtifactType, ArtifactRecord, ArtifactCreateSpec, JsonValue,
}
use agentic_cartoon_demo.Persistence.Session.{Db}
use agentic_cartoon_demo.Persistence.ArtifactRepo.{
  create_artifact, get_active_artifact, get_artifact, get_artifact_content, deactivate_active,
  artifact_type_eq, insert_artifact, insert_content, insert_artifact_rows,
}
use agentic_cartoon_demo.Persistence.ArtifactRepo.RoundTrip.{create_artifact-found}
use agentic_cartoon_demo.Persistence.ArtifactRepo.Duplicate.{create_artifact-duplicate}
use agentic_cartoon_demo.Workflow.Types.{WorkflowState}
use agentic_cartoon_demo.Workflow.Tests.{row_in}

abbrev first_draft : ArtifactRecord
first_draft = record {
  artifact_id = "draft-1";
  workflow_id = "wf";
  artifact_type = ArtifactType.scenario;
  name = "SCENARIO";
  version = 1;
  logical_version = 1;
  is_active = true;
  created_at = 0;
}

abbrev drafted : Db
drafted = record {
  workflows = row_in WorkflowState.generating_scenario ∷ [];
  workflow_transitions = [];
  tasks = [];
  task_payloads = [];
  artifacts = first_draft ∷ [];
  artifact_content = [];
  ai_invocations = [];
  outbox = [];
  idempotency = [];
  task_leases = [];
  in_transaction = true;
  environment = record { uuid4 = λ _. "draft-2"; utcnow = λ n. n };
  requests = 0;
}

abbrev second_draft : ArtifactCreateSpec
second_draft = record {
  workflow_id = "wf";
  artifact_type = ArtifactType.scenario;
  name = "SCENARIO";
  version = 2;
  logical_version = 2;
  content = JsonValue.int 7;
  is_active = true;
}

abbrev new_draft : ArtifactRecord
new_draft = record first_draft {
  artifact_id = "draft-2";
  version = 2;
  logical_version = 2;
  created_at = 1;
}

abbrev after : Db
after = (create_artifact second_draft drafted).1

found_example :
    (get_active_artifact "wf" ArtifactType.scenario after ≡ (ok (some new_draft), after))
    × (get_artifact "draft-2" after ≡ (ok (some new_draft), after))
    × (get_artifact_content "draft-2" after ≡ (ok (JsonValue.int 7), after))
unfolding create_artifact deactivate_active insert_artifact insert_content insert_artifact_rows find
    artifact_type_eq
found_example = create_artifact-found second_draft drafted {a = new_draft} {after = after} refl refl

taken_example :
    (create_artifact (record second_draft { version = 1 }) drafted).0 ≡ err persistence_duplicate
taken_example =
    create_artifact-duplicate (record second_draft { version = 1 }) drafted refl
      (inl (refl, refl, refl))
