-- ===== src/Worker/Delivery/Tests.antt =====
-- Runs of the worker's loop on a small input.
use agentic_cartoon_demo.Base.{◌≡◌, refl, Bool, true, false, [], ◌∷◌, none, find, inl, show_nat}
use agentic_cartoon_demo.Config.{task_type_value}
use agentic_cartoon_demo.Exceptions.{
  Result, ok, err, collector_error, value_error, agent_input_validation,
}
use agentic_cartoon_demo.Persistence.Types.{
  JsonValue, JsonFields, ArtifactRecord, ArtifactType, TaskLease,
}
use agentic_cartoon_demo.Persistence.Json.{set_field}
use agentic_cartoon_demo.Persistence.Session.{Db}
use agentic_cartoon_demo.Persistence.WorkflowRepo.{postgres, get_task, get_workflow}
use agentic_cartoon_demo.Persistence.IdempotencyRepo.{get_by_key}
use agentic_cartoon_demo.Persistence.TaskLeaseRepo.{try_acquire, release, delete_expired, lease_key}
use agentic_cartoon_demo.Persistence.ArtifactRepo.{
  create_artifact, deactivate_active, insert_artifact, insert_content, insert_artifact_rows,
}
use agentic_cartoon_demo.Workflow.Tests.{config, row_in}
use agentic_cartoon_demo.Workflow.Types.{WorkflowState}
use agentic_cartoon_demo.Worker.Tests.{worker_program, task, context, stored, open_, policies}
use agentic_cartoon_demo.Worker.Idempotency.{check_before_execution}
use agentic_cartoon_demo.Worker.StateGuard.{classify_stale_task}
use agentic_cartoon_demo.Worker.Retry.{classify_exception}
use agentic_cartoon_demo.Worker.Failure.{
  handle_failure, handle_retryable_failure, handle_permanent_failure,
}
use agentic_cartoon_demo.Worker.Handlers.{Outside, CollectionResult, CriticStatus, save_artifact}
use agentic_cartoon_demo.Worker.Handlers.LogicalVersion.{resolve_logical_version}
use agentic_cartoon_demo.Worker.Handlers.Stages.{handle, handle_collect, handle_review_scenario}
use agentic_cartoon_demo.Worker.Handlers.Review.{handle_review_scenario-raises}
use agentic_cartoon_demo.Persistence.WorkflowRepo.Progress.{is_ok}
use agentic_cartoon_demo.Worker.Delivery.{
  Loop, build_idempotency_key, run_task, work, on_exception, process_task, process_delivery,
}
use agentic_cartoon_demo.Worker.Delivery.Acknowledged.{Acknowledged, process_delivery-Acknowledged}
use agentic_cartoon_demo.Worker.Delivery.Released.{process_task-released}

-- The definitions that a run computes with.
delivery_program : Unit {0}
unfolding worker_program process_delivery process_task work on_exception run_task
    build_idempotency_key get_task get_workflow classify_stale_task check_before_execution
    get_by_key handle_failure handle_retryable_failure handle_permanent_failure classify_exception
    try_acquire release delete_expired handle handle_collect save_artifact create_artifact
    deactivate_active insert_artifact insert_content insert_artifact_rows set_field
    resolve_logical_version task_type_value show_nat find
delivery_program = tt

abbrev collected : CollectionResult
collected = record {
  completed_at = 0;
  stories = [];
  candidates = [];
  rejected = [];
  stats = record { fetched_count = 0; accepted_count = 0; rejected_count = 0; candidate_count = 0 };
}

abbrev outside : Outside
outside = record {
  collect_stories = λ _. ok collected;
  select_topic = λ _ _. err agent_input_validation;
  generate_scenario = λ _ _. err agent_input_validation;
  review_scenario = λ _ _ _. err agent_input_validation;
  provider_id = λ _. "provider";
  model = λ _. "model";
  isoformat = λ _. "1970-01-01T00:00:00";
  loads = λ _. err value_error;
  int_of_text = λ _. err value_error;
}

abbrev loop : Loop
loop = record {
  outside = outside;
  policies = policies;
  worker_id = "worker-1";
  ttl = 30;
  text_of = λ _. "error";
}

-- The collector fails.
abbrev failing : Loop
failing = record loop {
  outside = record outside { collect_stories = λ _. err (collector_error "COL_HTTP" true) };
}

abbrev processed : Loop → Result Bool × Db
processed l = process_delivery postgres config l context.delivery false stored

-- A task that is handled is acknowledged, and its workflow waits for the next task; one that fails
-- and will be tried again is not.
acknowledged : (processed loop).0 ≡ ok true
unfolding delivery_program
acknowledged = refl

not_acknowledged : (processed failing).0 ≡ ok false
unfolding delivery_program
not_acknowledged = refl

Acknowledged-example : Acknowledged postgres config loop context.delivery stored (processed loop).1
unfolding delivery_program
Acknowledged-example =
    process_delivery-Acknowledged postgres config loop context.delivery false stored
      {after = (processed loop).1} refl

abbrev lease : TaskLease
lease = record {
  lease_id = "id-1";
  task_id = "task";
  worker_id = "worker-1";
  acquired_at = 2;
  expires_at = 32;
}

-- The lease of a task whose collector fails.
released_example :
    find lease_key "id-1"
      (process_task postgres config failing context.delivery task
        (row_in WorkflowState.collecting)
        stored).1.task_leases
    ≡ none
unfolding delivery_program
released_example =
    process_task-released postgres config failing context.delivery task
      (row_in WorkflowState.collecting) stored lease (try_acquire "task" "worker-1" 30 stored).1
      refl

abbrev artifact : ArtifactType → ArtifactRecord
artifact type = record {
  artifact_id = "artifact";
  workflow_id = "wf";
  artifact_type = type;
  name = "artifact";
  version = 1;
  logical_version = 1;
  is_active = true;
  created_at = 0;
}

-- A second review, of the scenario that was written after a revision.
abbrev reviewed : Db
reviewed = record open_ {
  workflows = row_in WorkflowState.reviewing ∷ [];
  artifacts =
      artifact ArtifactType.critic_review
      ∷ record (artifact ArtifactType.scenario) { artifact_id = "scenario" }
      ∷ [];
  artifact_content =
      record { artifact_id = "scenario"; content = JsonValue.dict JsonFields.end } ∷ [];
}

-- The critic passes the scenario.
abbrev passing : Outside
passing = record outside {
  review_scenario =
      λ _ _ _. ok (record { status = CriticStatus.pass; issues = []; prompt_version = "1" });
}

raises_example : is_ok (handle_review_scenario passing context.delivery.message reviewed).0 ≡ false
raises_example =
    handle_review_scenario-raises passing context.delivery.message reviewed refl
      (inl (refl, refl, refl))
