-- ===== src/Runtime/Publisher.antt =====
-- runtime/outbox.py: the loop that publishes outbox entries to the task queue. Telemetry and failure
-- injection are left out.
pub mod Attempts
pub mod Counts
pub mod Delivery
use agentic_cartoon_demo.Base.{
  ℕ, zero, suc, ◌+◌, ◌*◌, min, ltb, if◌then◌else◌, Bool, true, false, String, List, [], ◌∷◌, ◌++◌,
  Option, none, some, length,
}
use agentic_cartoon_demo.Config.{TaskType}
use agentic_cartoon_demo.Exceptions.{Exception, Result, ok, err}
use agentic_cartoon_demo.Persistence.Types.{OutboxEntry, TaskRecord}
use agentic_cartoon_demo.Persistence.Session.{Db}
use agentic_cartoon_demo.Persistence.WorkflowRepo.{get_task}
use agentic_cartoon_demo.Persistence.OutboxRepo.{fetch_unpublished, mark_published}
use agentic_cartoon_demo.Worker.Types.{TaskMessage}

-- `WORKER_STREAM_BY_TASK_TYPE` of runtime/constants.py
abbrev pub stream_of : TaskType → String
stream_of TaskType.collect = "cartoon:tasks:collect"
stream_of TaskType.select_topic = "cartoon:tasks:select_topic"
stream_of TaskType.generate_scenario = "cartoon:tasks:generate_scenario"
stream_of TaskType.review_scenario = "cartoon:tasks:review_scenario"

abbrev pub max_attempts : ℕ
max_attempts = 5

-- The message that `OutboxMessageBuilder.build` makes of an entry and its task, without the trace
-- carrier.
abbrev pub message_of : OutboxEntry → TaskRecord → TaskMessage
message_of entry task = record {
  task_id = entry.task_id;
  workflow_id = entry.workflow_id;
  task_type = entry.task_type;
  attempt = task.attempt;
  created_at = task.created_at;
  payload_reference = entry.payload_reference.ref_id;
}

-- `OUTBOX_RETRY_INITIAL_SECONDS` and `OUTBOX_RETRY_MAX_SECONDS`, which are whole seconds.
abbrev pub retry_initial_seconds : ℕ
retry_initial_seconds = 1

abbrev pub retry_max_seconds : ℕ
retry_max_seconds = 30

-- `outbox_retry_schedule`
unfoldable pub outbox_retry_schedule : ℕ → ℕ → ℕ → List ℕ
outbox_retry_schedule delay max_seconds zero = []
outbox_retry_schedule delay max_seconds (suc attempts) =
    min delay max_seconds ∷ outbox_retry_schedule (delay * 2) max_seconds attempts

-- How the queue answers a call of `enqueue` (task_queue/redis_queue.py): it takes the message; it
-- takes the message and the call raises all the same, since the reply of XADD is not received in
-- time; it finds the message invalid; or it cannot be reached. The exceptions are of the classes that
-- the loop catches.
pub data EnqueueAnswer : Type 0 where
  accepted lost invalid unavailable : EnqueueAnswer

-- The database, the messages that the queue has taken with their streams, the number of calls that it
-- was sent, and the pauses made, in seconds.
pub record Publisher : Type 0 where
  pub db : Db
  pub sent : List (String × TaskMessage)
  pub calls : ℕ
  pub slept : List ℕ

pub data PublishOutcome : Type 0 where
  published failed : PublishOutcome

pub record OutboxPublishBatchResult : Type 0 where
  pub fetched_count : ℕ
  pub published_count : ℕ
  pub failed_count : ℕ
  pub skipped_count : ℕ

abbrev pub marked : Result OutboxEntry → Result PublishOutcome
marked (ok _) = ok published
marked (err e) = err e

-- `_sleep_backoff`
abbrev pub sleep_backoff : ℕ → List ℕ → List ℕ
sleep_backoff seconds slept = if ltb 0 seconds then slept ++ seconds ∷ [] else slept

-- The pause after a failure, which is left out when no further attempt is scheduled.
abbrev pub pause : List ℕ → ℕ → List ℕ → List ℕ
pause [] delay slept = slept
pause (_ ∷ _) delay slept = sleep_backoff delay slept

abbrev pub take_message : (String × TaskMessage) → Publisher → Publisher
take_message m p = record p { sent = p.sent ++ m ∷ []; calls = p.calls + 1 }

-- One call of the queue: whether the loop goes on, and with what.
abbrev pub enqueue_once :
    EnqueueAnswer
    → (String × TaskMessage)
    → Publisher
    → (Publisher → Bool × Publisher)
    → Bool × Publisher
enqueue_once EnqueueAnswer.accepted m p retry = (true, take_message m p)
enqueue_once EnqueueAnswer.lost m p retry = retry (take_message m p)
enqueue_once EnqueueAnswer.invalid m p retry = (false, record p { calls = p.calls + 1 })
enqueue_once EnqueueAnswer.unavailable m p retry = retry (record p { calls = p.calls + 1 })

module _ (answers : ℕ → EnqueueAnswer) where
  -- The loop of `_enqueue_with_retry` over the schedule: true when the queue took the message, false
  -- for either of the two errors.
  unfoldable pub try_each : List ℕ → (String × TaskMessage) → Publisher → Bool × Publisher
  try_each [] m p = (false, p)
  try_each (delay ∷ later) m p =
      let retry =
        λ (q : Publisher). try_each later m (record q { slept = pause later delay q.slept }) in
      enqueue_once (answers p.calls) m p retry

  -- `_enqueue_with_retry`
  unfoldable pub enqueue_with_retry : (String × TaskMessage) → Publisher → Bool × Publisher
  unfolding try_each outbox_retry_schedule
  enqueue_with_retry m p =
      try_each (outbox_retry_schedule retry_initial_seconds retry_max_seconds max_attempts) m p

  -- `_mark_published_with_retry`; the errors that it would try again come from the queue, not from
  -- the repository.
  abbrev pub mark : OutboxEntry → Publisher → Result PublishOutcome × Publisher
  mark entry p =
      let (r, after) =
        mark_published entry.outbox_id (p.db.environment.utcnow p.db.requests)
          (record p.db { requests = p.db.requests + 1 }) in
      (marked r, record p { db = after })

  abbrev pub after_enqueue : OutboxEntry → Bool × Publisher → Result PublishOutcome × Publisher
  after_enqueue entry (true, p) = mark entry p
  after_enqueue entry (false, p) = (ok failed, p)

  -- The body of the loop of `_publish_batch`, with the task that the message builder has found.
  abbrev pub publish_found :
      OutboxEntry → Option TaskRecord → Publisher → Result PublishOutcome × Publisher
  publish_found entry none p = (ok failed, p)
  publish_found entry (some task) p =
      after_enqueue entry (enqueue_with_retry (stream_of entry.task_type, message_of entry task) p)

  abbrev found_task : Result (Option TaskRecord) → Option TaskRecord
  found_task (ok o) = o
  found_task (err e) = none

  unfoldable pub publish_entry : OutboxEntry → Publisher → Result PublishOutcome × Publisher
  unfolding get_task mark_published enqueue_with_retry
  publish_entry entry p = publish_found entry (found_task (get_task entry.task_id p.db).0) p

  abbrev pub tally : OutboxPublishBatchResult → PublishOutcome → OutboxPublishBatchResult
  tally counts published = record counts { published_count = counts.published_count + 1 }
  tally counts failed = record counts { failed_count = counts.failed_count + 1 }

  abbrev pub and_tally :
      Result PublishOutcome
      → OutboxPublishBatchResult
      → Publisher
      → (OutboxPublishBatchResult → Publisher → Result OutboxPublishBatchResult × Publisher)
      → Result OutboxPublishBatchResult × Publisher
  and_tally (ok o) counts p next = next (tally counts o) p
  and_tally (err e) counts p next = (err e, p)

  -- The loop over the rows: an error that the loop does not catch ends it.
  unfoldable pub publish_rows :
      List OutboxEntry
      → OutboxPublishBatchResult
      → Publisher
      → Result OutboxPublishBatchResult × Publisher
  unfolding publish_entry
  publish_rows [] counts p = (ok counts, p)
  publish_rows (entry ∷ rows) counts p =
      let next = λ (c : OutboxPublishBatchResult) (q : Publisher). publish_rows rows c q in
      let (r, q) = publish_entry entry p in and_tally r counts q next

  abbrev fetched : Result (List OutboxEntry) → List OutboxEntry
  fetched (ok rows) = rows
  fetched (err e) = []

  -- `_publish_batch`
  unfoldable pub publish_batch : ℕ → Publisher → Result OutboxPublishBatchResult × Publisher
  unfolding publish_rows fetch_unpublished
  publish_batch batch_size p =
      let rows = fetched (fetch_unpublished batch_size p.db).0 in
      publish_rows rows
        (record {
          fetched_count = length rows;
          published_count = 0;
          failed_count = 0;
          skipped_count = 0;
        })
        p
