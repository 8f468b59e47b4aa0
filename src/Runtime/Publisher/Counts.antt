-- ===== src/Runtime/Publisher/Counts.antt =====
-- What a batch of the publisher of runtime/outbox.py counts and sends.
use agentic_cartoon_demo.Base.{
  ℕ, zero, suc, ◌+◌, ◌≤◌, ◌≡◌, refl, ap, ◌∙◌, subst₂, String, List, [], ◌∷◌, ◌++◌, ◌*◌, length,
  length-append, arith,
}
use agentic_cartoon_demo.Exceptions.{Result, ok, err}
use agentic_cartoon_demo.Persistence.Types.{OutboxEntry}
use agentic_cartoon_demo.Persistence.OutboxRepo.{fetch_unpublished}
use agentic_cartoon_demo.Worker.Types.{TaskMessage}
use agentic_cartoon_demo.Runtime.Publisher.{
  EnqueueAnswer, Publisher, PublishOutcome, published, failed, OutboxPublishBatchResult, stream_of,
  message_of, publish_entry, tally, and_tally, publish_rows, publish_batch,
}
use agentic_cartoon_demo.Runtime.Publisher.Delivery.{
  copies, Outcome, delivered, kept, no_task, publish_entry-Outcome,
}

length-copies : (n : ℕ) (m : String × TaskMessage) → length (copies n m) ≡ n
length-copies zero m = refl
length-copies (suc n) m = omega (arith, length-copies n m)

rows-done :
    {c c' : OutboxPublishBatchResult} {p q : Publisher}
    → ◌≡◌ {A = Result OutboxPublishBatchResult × Publisher} (ok c, p) (ok c', q)
    → (c ≡ c') × (p ≡ q)
rows-done h = (cc, cc)

module _ (answers : ℕ → EnqueueAnswer) where
  -- What the counts of a batch say.
  abbrev Balanced :
      OutboxPublishBatchResult → OutboxPublishBatchResult → Publisher → Publisher → ℕ → Type 0
  Balanced c c' p q n =
      (c'.published_count + c'.failed_count ≡ c.published_count + c.failed_count + n)
      × (length p.sent + c'.published_count ≤ length q.sent + c.published_count)
      × (length q.sent ≤ length p.sent + 5 * n)
      × (c'.fetched_count ≡ c.fetched_count)

  sent-length :
      (p q : Publisher) (n : ℕ) (m : String × TaskMessage)
      → q.sent ≡ p.sent ++ copies n m
      → length q.sent ≡ length p.sent + n
  sent-length p q n m s =
      ap length s
      ∙ length-append p.sent (copies n m)
      ∙ ap (λ k. length p.sent + k) (length-copies n m)

  Outcome-Balanced :
      (entry : OutboxEntry) (p q : Publisher) (o : PublishOutcome) (c : OutboxPublishBatchResult)
      → Outcome entry p q o
      → Balanced c (tally answers c o) p q 1
  Outcome-Balanced entry p q published c (delivered task e n found sent low high there status) =
      let l = sent-length p q n (stream_of entry.task_type, message_of entry task) sent in
      (omega arith, omega (arith, l, low), omega (arith, l, high), refl)
  Outcome-Balanced entry p q failed c (kept task n found d sent high) =
      let l = sent-length p q n (stream_of entry.task_type, message_of entry task) sent in
      (omega arith, omega (arith, l), omega (arith, l, high), refl)
  Outcome-Balanced entry p q failed c (no_task found d sent) =
      let l = ap length sent in (omega arith, omega (arith, l), omega (arith, l), refl)

  publish_rows-Balanced :
      (rows : List OutboxEntry) (c : OutboxPublishBatchResult) (p : Publisher)
      {c' : OutboxPublishBatchResult} {q : Publisher}
      → publish_rows answers rows c p ≡ (ok c', q)
      → Balanced c c' p q (length rows)
  unfolding publish_rows
  publish_rows-Balanced [] c p h =
      let (same, ended) = rows-done h in
      subst₂ (λ x y. Balanced c x p y 0) same ended (omega arith, omega arith, omega arith, refl)
  publish_rows-Balanced (entry ∷ rows) c p {c' = c'} {q = q} h =
      by_result (λ d mid e. publish_rows-Balanced rows d mid {c' = c'} {q = q} e)
        (publish_entry answers entry p).0 (publish_entry answers entry p).1 refl h
    where
      by_result :
          ((d : OutboxPublishBatchResult)
            → (mid : Publisher) → publish_rows answers rows d mid ≡ (ok c', q)
            → Balanced d c' mid q (length rows))
          → (r : Result PublishOutcome) (mid : Publisher) → publish_entry answers entry p ≡ (r, mid)
          → and_tally answers r c mid (publish_rows answers rows) ≡ (ok c', q)
          → Balanced c c' p q (suc (length rows))
      by_result later (err x) mid e h = cc
      by_result later (ok o) mid e h =
          let first = Outcome-Balanced entry p mid o c (publish_entry-Outcome answers entry p e) in
          let rest = later (tally answers c o) mid h in
          (
            omega (arith, first.0, rest.0),
            omega (arith, first.1, rest.1),
            omega (arith, first.2, rest.2),
            rest.3 ∙ first.3,
          )

  -- In a batch that raises nothing, the published and the failed entries are together those that were
  -- fetched, and the queue has taken at least as many messages as entries were published, and at most
  -- five for each fetched entry.
  pub publish_batch-counts :
      (batch_size : ℕ) (p : Publisher) {c : OutboxPublishBatchResult} {q : Publisher}
      → publish_batch answers batch_size p ≡ (ok c, q)
      → (c.published_count + c.failed_count ≡ c.fetched_count)
        × (length p.sent + c.published_count ≤ length q.sent)
        × (length q.sent ≤ length p.sent + 5 * c.fetched_count)
  unfolding publish_batch fetch_unpublished
  publish_batch-counts batch_size p h =
      let b = publish_rows-Balanced _ _ p h in
      (omega (arith, b.0, b.3), omega (arith, b.1), omega (arith, b.2, b.3))
