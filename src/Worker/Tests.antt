-- ===== src/Worker/Tests.antt =====
-- Runs of the worker's commit and of the leases on small inputs.
use agentic_cartoon_demo.Base.{
  ℕ, ◌<◌, ◌⊎◌, ◌≡◌, refl, true, false, String, [], ◌∷◌, none, some, find, arith, zero, suc,
}
use agentic_cartoon_demo.Config.{TaskType}
use agentic_cartoon_demo.Exceptions.{Result, ok}
use agentic_cartoon_demo.Persistence.Types.{TaskLease, TaskRecord, TaskStatus, IdempotencyRecord}
use agentic_cartoon_demo.Persistence.Session.{Db, transaction}
use agentic_cartoon_demo.Persistence.WorkflowRepo.{postgres, get_task, update_task}
use agentic_cartoon_demo.Persistence.IdempotencyRepo.{try_insert}
use agentic_cartoon_demo.Persistence.TaskLeaseRepo.{try_acquire, renew, release}
use agentic_cartoon_demo.Persistence.TaskLeaseRepo.Exclusion.{
  IsExclusive, leases-IsExclusive, try_acquire-refused,
}
use agentic_cartoon_demo.Workflow.Types.{WorkflowState, TransitionSignal}
use agentic_cartoon_demo.Workflow.TransitionTable.{lookup}
use agentic_cartoon_demo.Workflow.OutboxBuilder.Effects.{Quiet}
use agentic_cartoon_demo.Workflow.Executor.{TransitionResult}
use agentic_cartoon_demo.Workflow.Effects.{SameTables}
use agentic_cartoon_demo.Workflow.Tests.{empty_db, config, row_in, program}
use agentic_cartoon_demo.Worker.Types.{TaskHandlerOutcome, TaskHandlerResult, DeliveryContext}
use agentic_cartoon_demo.Worker.StateGuard.{
  StaleAction, classify_stale_task, post_transition_state, Matches, classify_stale_task-Classified,
  Classified, post_transition_state-Matches,
}
use agentic_cartoon_demo.Worker.Idempotency.{claim_completion, Claimed, claim_completion-Claimed}
use agentic_cartoon_demo.Worker.Commit.{
  bridge, winner_path, loser_path, loser_path_of, commit_success_path,
}
use agentic_cartoon_demo.Worker.Retry.{RetryPolicies, is_exhausted}
use agentic_cartoon_demo.Worker.Failure.{
  handle_retryable_failure, handle_permanent_failure, handle_failure,
}
use agentic_cartoon_demo.Worker.Failure.Outcomes.{Retried, Failed, handle_failure-ends}
use agentic_cartoon_demo.Worker.Commit.Bridge.{bridge-ends}
use agentic_cartoon_demo.Worker.Commit.Duplicate.{duplicate-Quiet}
use agentic_cartoon_demo.Worker.Commit.Once.{Committed, commit-Committed, commit-once}

-- The definitions that a run computes with.
unfoldable pub worker_program : Unit {0}
unfolding program claim_completion try_insert bridge winner_path loser_path loser_path_of
    commit_success_path post_transition_state update_task get_task
worker_program = tt

abbrev pub task : TaskRecord
task = record {
  task_id = "task";
  workflow_id = "wf";
  task_type = TaskType.collect;
  attempt = 1;
  status = TaskStatus.dispatched;
  payload_reference = record { ref_id = "task"; ref_kind = "task_payload" };
  idempotency_key = "wf:COLLECT:1";
  created_at = 0;
  updated_at = 0;
  completed_at = none;
  failure_reason = none;
}

abbrev pub context : DeliveryContext
context = record {
  delivery = record {
    message = record {
      task_id = "task";
      workflow_id = "wf";
      task_type = TaskType.collect;
      attempt = 1;
      created_at = 0;
      payload_reference = "task";
    };
    stream = "stream";
    consumer_group = "workers";
    delivery_id = "delivery";
    dequeued_at = 0;
  };
  task_record = task;
  workflow_record = row_in WorkflowState.collecting;
  task_type = TaskType.collect;
  workflow_state = WorkflowState.collecting;
  idempotency_key = "wf:COLLECT:1";
  effective_attempt = 1;
}

abbrev success : TaskHandlerResult
success = record {
  outcome = TaskHandlerOutcome.completed;
  transition_signal = none;
  reason = none;
  result_artifact_id = some "artifact";
  error_class = none;
}

abbrev pub stored : Db
stored = record empty_db { workflows = row_in WorkflowState.collecting ∷ []; tasks = task ∷ [] }

abbrev pub open_ : Db
open_ = record stored { in_transaction = true }

abbrev after_first : Db
after_first = (transaction (commit_success_path postgres config context success) stored).1

commits : (transaction (commit_success_path postgres config context success) stored).0 ≡ ok tt
unfolding worker_program
commits = refl

once_example :
    SameTables after_first
      (transaction (commit_success_path postgres config context success) after_first).1
unfolding worker_program
once_example =
    commit-once postgres config context context success success stored refl refl refl refl refl

Committed-example :
    Committed config context (commit_success_path postgres config context success open_).1
unfolding worker_program
Committed-example = commit-Committed postgres config context success open_ refl refl refl

abbrev completion : IdempotencyRecord
completion = record {
  idempotency_key = "wf:COLLECT:1";
  workflow_id = "wf";
  task_id = "task";
  completed_at = 3;
  result_artifact_id = none;
}

abbrev completed_already : Db
completed_already = record open_ {
  idempotency = completion ∷ [];
  workflows = row_in WorkflowState.selecting_topic ∷ [];
}

duplicate_example :
    Quiet completed_already
      (commit_success_path postgres config context success completed_already).1
unfolding find
duplicate_example =
    duplicate-Quiet postgres config context success completed_already completion refl refl
      (λ w found. cc)

claim_example : Claimed open_ (record {
  idempotency_key = "wf:COLLECT:1";
  workflow_id = "wf";
  task_id = "task";
  result_artifact_id = none;
})
claim_example =
    claim_completion-Claimed
      (record {
        idempotency_key = "wf:COLLECT:1";
        workflow_id = "wf";
        task_id = "task";
        result_artifact_id = none;
      })
      open_ refl

abbrev collected_now : Db
collected_now = record open_ { workflows = row_in WorkflowState.review_passed ∷ [] }

abbrev passed : TransitionResult
passed = record {
  workflow_id = "wf";
  from_state = WorkflowState.reviewing;
  to_state = WorkflowState.review_passed;
  state_version = 4;
  transition_id = "t";
  transition = record {
    transition_id = "t";
    workflow_id = "wf";
    from_state = WorkflowState.reviewing;
    to_state = WorkflowState.review_passed;
    reason = "";
    occurred_at = 0;
    actor = none;
  };
  outbox_written = false;
  enqueued_task = none;
}

bridge_example : true ≡ true
unfolding worker_program
bridge_example =
    bridge-ends postgres config context.delivery.message 0 passed collected_now {b = true}
      {after = (bridge postgres config (suc zero) context.delivery.message passed collected_now).1}
      refl

Matches-example :
    Matches 2 2 TransitionSignal.critic_revise
      (lookup WorkflowState.reviewing TransitionSignal.critic_revise 2 2)
      (post_transition_state TaskType.review_scenario TransitionSignal.critic_revise)
Matches-example =
    post_transition_state-Matches TaskType.review_scenario TransitionSignal.critic_revise 2 2

Classified-example :
    Classified WorkflowState.collected TaskType.collect
      (record { action = StaleAction.ack_and_skip; reason = some "state_mismatch" })
unfolding classify_stale_task
Classified-example = classify_stale_task-Classified WorkflowState.collected TaskType.collect

abbrev lease : TaskLease
lease = record {
  lease_id = "lease";
  task_id = "task";
  worker_id = "worker-1";
  acquired_at = 0;
  expires_at = 30;
}

abbrev leased : Db
leased = record empty_db { task_leases = lease ∷ []; requests = 20 }

IsExclusive-example :
    ((task_id worker_id : String)
      → (ttl : ℕ) → IsExclusive (try_acquire task_id worker_id ttl leased).1)
    × ((lease_id : String) → (ttl : ℕ) → IsExclusive (renew lease_id ttl leased).1)
    × ((lease_id : String) → IsExclusive (release lease_id leased).1)
IsExclusive-example = leases-IsExclusive leased (λ task_id. ground arith)

refused_lease_example : (try_acquire "task" "worker-2" 30 leased).0 ≡ ok none
unfolding find
refused_lease_example = try_acquire-refused "task" "worker-2" 30 leased lease refl refl

abbrev pub policies : RetryPolicies
policies = record { max_attempts = λ _. 3 }

abbrev given_up : Result (Unit {0}) × Db
given_up =
    handle_failure postgres config policies context.delivery.message TaskType.collect task 3 true
      "timeout" "timed out" stored

failure_example :
    (Retried stored given_up.1 task 3 "timed out" × (3 < policies.max_attempts TaskType.collect))
    ⊎ Failed given_up.1 context.delivery.message task "timeout"
        (is_exhausted policies 3 TaskType.collect)
unfolding worker_program handle_retryable_failure handle_permanent_failure handle_failure
failure_example =
    handle_failure-ends postgres config policies context.delivery.message TaskType.collect task 3
      true "timeout" "timed out" stored {u = tt} {after = given_up.1} refl
