-- ===== src/Runtime/Tests.antt =====
-- Runs of the outbox publisher on small inputs.
use agentic_cartoon_demo.Base.{
  ℕ, zero, suc, ◌+◌, ◌*◌, ◌≤◌, ◌≡◌, refl, [], ◌∷◌, none, find, replace, length,
}
use agentic_cartoon_demo.Config.{TaskType}
use agentic_cartoon_demo.Persistence.Types.{OutboxEntry, OutboxStatus}
use agentic_cartoon_demo.Persistence.WorkflowRepo.{get_task}
use agentic_cartoon_demo.Persistence.OutboxRepo.{fetch_unpublished, mark_published}
use agentic_cartoon_demo.Worker.Tests.{stored, task}
use agentic_cartoon_demo.Runtime.Publisher.{
  EnqueueAnswer, Publisher, published, OutboxPublishBatchResult, message_of, stream_of,
  outbox_retry_schedule, try_each, enqueue_with_retry, publish_entry, publish_rows, publish_batch,
}
use agentic_cartoon_demo.Runtime.Publisher.Delivery.{Outcome, publish_entry-Outcome}
use agentic_cartoon_demo.Runtime.Publisher.Counts.{publish_batch-counts}
use agentic_cartoon_demo.Runtime.Publisher.Attempts.{Attempted, enqueue_with_retry-Attempted}

-- A queue that takes the first message, but whose reply is lost.
abbrev answers : ℕ → EnqueueAnswer
answers zero = EnqueueAnswer.lost
answers (suc _) = EnqueueAnswer.accepted

abbrev entry : OutboxEntry
entry = record {
  outbox_id = "entry";
  workflow_id = "wf";
  task_id = "task";
  task_type = TaskType.collect;
  payload_reference = record { ref_id = "task"; ref_kind = "task_payload" };
  idempotency_key = "wf:COLLECT:1";
  status = OutboxStatus.pending;
  created_at = 0;
  published_at = none;
}

abbrev before : Publisher
before = record { db = record stored { outbox = entry ∷ [] }; sent = []; calls = 0; slept = [] }

-- The definitions that a run computes with.
publisher_program : Unit {0}
unfolding find replace get_task fetch_unpublished mark_published outbox_retry_schedule try_each
    enqueue_with_retry publish_entry publish_rows publish_batch
publisher_program = tt

abbrev after_entry : Publisher
after_entry = (publish_entry answers entry before).1

outcome_example : Outcome entry before after_entry published
unfolding publisher_program
outcome_example = publish_entry-Outcome answers entry before {o = published} {q = after_entry} refl

abbrev counts : OutboxPublishBatchResult
counts = record { fetched_count = 1; published_count = 1; failed_count = 0; skipped_count = 0 }

-- The message is sent a second time, after a pause of a second.
lost_reply :
    (after_entry.slept ≡ 1 ∷ [])
    × (after_entry.sent
        ≡ (stream_of TaskType.collect, message_of entry task)
          ∷ (stream_of TaskType.collect, message_of entry task)
          ∷ [])
unfolding publisher_program
lost_reply = (refl, refl)

-- The pauses before a fifth failure.
spent :
    (enqueue_with_retry
      (λ _. EnqueueAnswer.unavailable)
      (stream_of TaskType.collect, message_of entry task)
      before).1.slept
    ≡ 1 ∷ 2 ∷ 4 ∷ 8 ∷ []
unfolding publisher_program
spent = refl

counts_example :
    (counts.published_count + counts.failed_count ≡ counts.fetched_count)
    × (length before.sent + counts.published_count
        ≤ length (publish_batch answers 10 before).1.sent)
    × (length (publish_batch answers 10 before).1.sent
        ≤ length before.sent + 5 * counts.fetched_count)
unfolding publisher_program
counts_example =
    publish_batch-counts answers 10 before {c = counts} {q = (publish_batch answers 10 before).1}
      refl

Attempted-example :
    Attempted answers
      (1 ∷ 2 ∷ 4 ∷ 8 ∷ 16 ∷ [])
      before
      (enqueue_with_retry answers (stream_of TaskType.collect, message_of entry task) before)
Attempted-example =
    enqueue_with_retry-Attempted answers (stream_of TaskType.collect, message_of entry task) before
