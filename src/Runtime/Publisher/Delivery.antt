-- ===== src/Runtime/Publisher/Delivery.antt =====
-- What the publisher of runtime/outbox.py sends and marks for an entry.
use agentic_cartoon_demo.Base.{
  ℕ, zero, suc, ◌+◌, ◌≤◌, ◌≡◌, refl, ap, ◌∙◌, sym, subst, subst₂, inl, inr, Bool, true, false,
  Bool-cases, String, List, [], ◌∷◌, ◌++◌, append-nil, append_assoc, Option, none, some,
  Option-cases, length, find, find-key, find-replace, replace, str_refl, arith,
}
use agentic_cartoon_demo.Exceptions.{Result, ok, err}
use agentic_cartoon_demo.Persistence.Types.{OutboxEntry, OutboxStatus, TaskRecord}
use agentic_cartoon_demo.Persistence.Session.{Db}
use agentic_cartoon_demo.Persistence.WorkflowRepo.{task_key, get_task}
use agentic_cartoon_demo.Persistence.OutboxRepo.{outbox_key, is_pending, publish, mark_published}
use agentic_cartoon_demo.Worker.Types.{TaskMessage}
use agentic_cartoon_demo.Runtime.Publisher.{
  EnqueueAnswer, Publisher, PublishOutcome, published, failed, stream_of, max_attempts,
  retry_initial_seconds, retry_max_seconds, outbox_retry_schedule, message_of, pause, take_message,
  enqueue_once, try_each, enqueue_with_retry, mark, marked, after_enqueue, publish_found,
  publish_entry,
}

abbrev pub copies : ℕ → String × TaskMessage → List (String × TaskMessage)
copies zero m = []
copies (suc n) m = m ∷ copies n m

-- What the attempts to send a message come to.
data Enqueued (attempts : ℕ) (m : String × TaskMessage) (p : Publisher)
    : Bool × Publisher → Type 0 where
  taken :
      {q : Publisher} (n : ℕ)
      → q.db ≡ p.db
      → q.sent ≡ p.sent ++ copies n m
      → 1 ≤ n
      → n ≤ attempts
      → Enqueued attempts m p (true, q)
  gave_up :
      {q : Publisher} (n : ℕ)
      → q.db ≡ p.db
      → q.sent ≡ p.sent ++ copies n m
      → n ≤ attempts
      → Enqueued attempts m p (false, q)

-- What publishing an entry comes to, when it raises nothing.
pub data Outcome (entry : OutboxEntry) (p q : Publisher) : PublishOutcome → Type 0 where
  delivered :
      (task : TaskRecord) (e : OutboxEntry) (n : ℕ)
      → find task_key entry.task_id p.db.tasks ≡ some task
      → q.sent ≡ p.sent ++ copies n (stream_of entry.task_type, message_of entry task)
      → 1 ≤ n
      → n ≤ 5
      → find outbox_key entry.outbox_id q.db.outbox ≡ some e
      → e.status ≡ OutboxStatus.published
      → Outcome entry p q published
  kept :
      (task : TaskRecord) (n : ℕ)
      → find task_key entry.task_id p.db.tasks ≡ some task
      → q.db ≡ p.db
      → q.sent ≡ p.sent ++ copies n (stream_of entry.task_type, message_of entry task)
      → n ≤ 5
      → Outcome entry p q failed
  no_task :
      find task_key entry.task_id p.db.tasks ≡ none
      → q.db ≡ p.db
      → q.sent ≡ p.sent
      → Outcome entry p q failed

marked-ok :
    (r : Result OutboxEntry) {o : PublishOutcome}
    → marked r ≡ ok o
    → (e : OutboxEntry) × (r ≡ ok e) × (o ≡ published)
marked-ok (ok e) h = (e, refl, cc)
marked-ok (err x) h = cc

-- After a call that returns, the entry under the identifier is published.
mark_published-ok :
    (id : String) (t : ℕ) (db : Db) {r : OutboxEntry} {after : Db}
    → mark_published id t db ≡ (ok r, after)
    → (e : OutboxEntry) × (find outbox_key id after.outbox ≡ some e)
      × (e.status ≡ OutboxStatus.published)
unfolding mark_published
mark_published-ok id t db {after = after} h = elim (Option-cases (find outbox_key id db.outbox)) [
  | inl missing ↦ absurd (ground (arith, missing))
  | inr (e, there) ↦ elim (Bool-cases (is_pending e)) [
    | inl pending ↦
        let key = find-key outbox_key id db.outbox e there in
        let moved = find-replace outbox_key e.outbox_id id (publish t) db.outbox (λ r k. k) in
        let rows : after.outbox ≡ replace outbox_key e.outbox_id (publish t) db.outbox =
          ground (arith, there, pending) in
        (publish t e, ground (arith, rows, moved, key, there, str_refl id), refl)
    | inr done ↦
        let rows : after.outbox ≡ db.outbox = ground (arith, there, done) in
        (e, ap (find outbox_key id) rows ∙ there, ground (arith, done))
  ]
]

failed-returned :
    (q : Publisher) {o : PublishOutcome} {q' : Publisher}
    → ◌≡◌ {A = Result PublishOutcome × Publisher} (ok failed, q) (ok o, q')
    → (failed ≡ o) × (q ≡ q')
failed-returned q {o = published} h = cc
failed-returned q {o = failed} h = (refl, ap (λ (x : Result PublishOutcome × Publisher). x.1) h)

copies-add : (k n : ℕ) (m : String × TaskMessage) → copies k m ++ copies n m ≡ copies (k + n) m
copies-add zero n m = ap (λ i. copies i m) (omega arith)
copies-add (suc k) n m =
    let sum : ◌≡◌ {A = ℕ} (suc (k + n)) (suc k + n) = omega arith in
    ap (λ l. m ∷ l) (copies-add k n m) ∙ ap (λ i. copies i m) sum

added_copies :
    (added n : ℕ) (m : String × TaskMessage) (p q : Publisher)
    → q.sent ≡ p.sent ++ copies added m
    → q.sent ++ copies n m ≡ p.sent ++ copies (added + n) m
added_copies added n m p q s =
    ap (λ l. l ++ copies n m) s
    ∙ append_assoc p.sent (copies added m) (copies n m)
    ∙ ap (λ l. p.sent ++ l) (copies-add added n m)

module _ (answers : ℕ → EnqueueAnswer) where
  -- After a call that is tried again, whether or not it has added a message.
  tried_again :
      (attempts added : ℕ) (m : String × TaskMessage) (p q : Publisher) (r : Bool × Publisher)
      → q.db ≡ p.db
      → q.sent ≡ p.sent ++ copies added m
      → added ≤ 1
      → Enqueued attempts m q r
      → Enqueued (suc attempts) m p r
  tried_again attempts added m p q (true, r) d s b (taken n e t low high) =
      taken (added + n) (e ∙ d) (t ∙ added_copies added n m p q s) (omega (arith, low))
        (omega (arith, b, high))
  tried_again attempts added m p q (false, r) d s b (gave_up n e t high) =
      gave_up (added + n) (e ∙ d) (t ∙ added_copies added n m p q s) (omega (arith, b, high))

  try_each-Enqueued :
      (schedule : List ℕ) (m : String × TaskMessage) (p : Publisher)
      → Enqueued (length schedule) m p (try_each answers schedule m p)
  unfolding try_each
  try_each-Enqueued [] m p = gave_up 0 refl (sym (append-nil p.sent)) (omega arith)
  try_each-Enqueued (delay ∷ later) m p =
      by_answer (answers p.calls)
        (λ q. try_each-Enqueued later m (record q { slept = pause later delay q.slept }))
    where
      by_answer :
          (answer : EnqueueAnswer)
          → ((q : Publisher)
              → Enqueued
                  (length later)
                  m
                  (record q { slept = pause later delay q.slept })
                  (try_each answers later m (record q { slept = pause later delay q.slept })))
          → Enqueued (suc (length later)) m p (
              enqueue_once answer m p (λ (q : Publisher).
                try_each answers later m (record q { slept = pause later delay q.slept })))
      by_answer EnqueueAnswer.accepted h = taken 1 refl refl (omega arith) (omega arith)
      by_answer EnqueueAnswer.invalid h = gave_up 0 refl (sym (append-nil p.sent)) (omega arith)
      by_answer EnqueueAnswer.lost h =
          tried_again (length later) 1 m p _ _ refl refl (omega arith) (h (take_message m p))
      by_answer EnqueueAnswer.unavailable h =
          tried_again (length later) 0 m p _ _ refl (sym (append-nil p.sent)) (omega arith)
            (h (record p { calls = p.calls + 1 }))

  mark-published :
      (entry : OutboxEntry) (p : Publisher) {o : PublishOutcome} {q : Publisher}
      → mark answers entry p ≡ (ok o, q)
      → (o ≡ published)
        × (q.sent ≡ p.sent)
        × (e : OutboxEntry) × (find outbox_key entry.outbox_id q.db.outbox ≡ some e)
        × (e.status ≡ OutboxStatus.published)
  mark-published entry p h =
      let t = p.db.environment.utcnow p.db.requests in
      let db = record p.db { requests = p.db.requests + 1 } in
      let run = mark_published entry.outbox_id t db in
      let (e', returned, is) = marked-ok run.0 (ap (λ x. x.0) h) in
      let (e, there, status) =
        mark_published-ok entry.outbox_id t db (ap (λ r. (r, run.1)) returned) in
      (
        is,
        sym (ap (λ (x : Result PublishOutcome × Publisher). x.1.sent) h),
        e,
        sym (
              ap
                (λ (x : Result PublishOutcome × Publisher).
                  find outbox_key entry.outbox_id x.1.db.outbox)
                h)
            ∙ there,
        status,
      )

  after_enqueue-Outcome :
      (entry : OutboxEntry) (task : TaskRecord) (p : Publisher) (r : Bool × Publisher)
      {o : PublishOutcome} {q : Publisher}
      → find task_key entry.task_id p.db.tasks ≡ some task
      → Enqueued max_attempts (stream_of entry.task_type, message_of entry task) p r
      → after_enqueue answers entry r ≡ (ok o, q)
      → Outcome entry p q o
  after_enqueue-Outcome entry task p (true, q) found (taken n d s low high) h =
      let (is, sent, e, there, status) = mark-published entry q h in
      subst (Outcome entry p _) (sym is) (delivered task e n found (sent ∙ s) low high there status)
  after_enqueue-Outcome entry task p (false, q) found (gave_up n d s high) h =
      let (is, same) = failed-returned q h in
      subst₂ (λ q o. Outcome entry p q o) same is (kept task n found d s high)

  -- An entry that is reported as published was taken by the queue at least once and at most five
  -- times, as the message of its stored task and on its type's stream, and is marked as published. For
  -- one that is reported as failed the database is as it was, and its task is not stored and nothing
  -- was sent, or the queue has taken nothing but copies of that message, at most five. The queue may
  -- take a message and the call fail all the same.
  pub publish_entry-Outcome :
      (entry : OutboxEntry) (p : Publisher) {o : PublishOutcome} {q : Publisher}
      → publish_entry answers entry p ≡ (ok o, q)
      → Outcome entry p q o
  unfolding publish_entry get_task enqueue_with_retry outbox_retry_schedule
  publish_entry-Outcome entry p {o = o} {q = q} h =
      by_task (find task_key entry.task_id p.db.tasks) refl h
    where
      by_task :
          (found : Option TaskRecord)
          → find task_key entry.task_id p.db.tasks ≡ found
          → publish_found answers entry found p ≡ (ok o, q)
          → Outcome entry p q o
      by_task none e h =
          let (is, same) = failed-returned p h in
          subst₂ (λ q o. Outcome entry p q o) same is (no_task e refl refl)
      by_task (some task) e h =
          let m : String × TaskMessage = (stream_of entry.task_type, message_of entry task) in
          after_enqueue-Outcome entry task p (enqueue_with_retry answers m p) e
            (try_each-Enqueued
              (outbox_retry_schedule retry_initial_seconds retry_max_seconds max_attempts) m p)
            h
