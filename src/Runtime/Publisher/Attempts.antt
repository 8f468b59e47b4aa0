-- ===== src/Runtime/Publisher/Attempts.antt =====
-- How often the publisher of runtime/outbox.py calls the queue for one message, and how long it waits.
use agentic_cartoon_demo.Base.{
  ℕ, zero, suc, ◌+◌, ◌<◌, ◌≡◌, refl, ap, ◌∙◌, sym, subst, Bool, true, false, String, List, [], ◌∷◌,
  ◌++◌, append-nil, append_assoc, length, take, All, arith,
}
use agentic_cartoon_demo.Worker.Types.{TaskMessage}
use agentic_cartoon_demo.Runtime.Publisher.{
  EnqueueAnswer, Publisher, max_attempts, retry_initial_seconds, retry_max_seconds,
  outbox_retry_schedule, sleep_backoff, pause, take_message, enqueue_once, try_each,
  enqueue_with_retry,
}

-- The answers after which the loop tries again.
pub data IsRetried : EnqueueAnswer → Type 0 where
  lost : IsRetried EnqueueAnswer.lost
  unavailable : IsRetried EnqueueAnswer.unavailable

abbrev pub all_but_last : List ℕ → List ℕ
all_but_last [] = []
all_but_last (x ∷ []) = []
all_but_last (x ∷ y ∷ l) = x ∷ all_but_last (y ∷ l)

next_call : (p q : Publisher) (i : ℕ) → q.calls ≡ p.calls + 1 → q.calls + i ≡ p.calls + suc i
next_call p q i c = omega (arith, c)

-- What is slept in all, when the first pause is not the last.
slept-pause :
    (delay : ℕ) (slept rest mid after : List ℕ)
    → 0 < delay
    → mid ≡ sleep_backoff delay slept
    → after ≡ mid ++ rest
    → after ≡ slept ++ delay ∷ rest
slept-pause delay slept rest mid after positive s z =
    let added : sleep_backoff delay slept ≡ slept ++ delay ∷ [] = ground (arith, positive) in
    z ∙ ap (λ l. l ++ rest) (s ∙ added) ∙ append_assoc slept (delay ∷ []) rest

module _ (answers : ℕ → EnqueueAnswer) where
  -- The next `k` calls are ones that are tried again.
  abbrev pub Fails : Publisher → ℕ → Type 0
  Fails p k = (i : ℕ) → i < k → IsRetried (answers (p.calls + i))

  -- How a loop over a schedule ends: by the call after `k` failures, or without any attempt left.
  pub data Attempted (schedule : List ℕ) (p : Publisher) : Bool × Publisher → Type 0 where
    accepted :
        {q : Publisher} (k : ℕ)
        → k < length schedule
        → Fails p k
        → answers (p.calls + k) ≡ EnqueueAnswer.accepted
        → q.calls ≡ p.calls + k + 1
        → q.slept ≡ p.slept ++ take k schedule
        → Attempted schedule p (true, q)
    invalid :
        {q : Publisher} (k : ℕ)
        → k < length schedule
        → Fails p k
        → answers (p.calls + k) ≡ EnqueueAnswer.invalid
        → q.calls ≡ p.calls + k + 1
        → q.slept ≡ p.slept ++ take k schedule
        → Attempted schedule p (false, q)
    exhausted :
        {q : Publisher}
        → Fails p (length schedule)
        → q.calls ≡ p.calls + length schedule
        → q.slept ≡ p.slept ++ all_but_last schedule
        → Attempted schedule p (false, q)

  Fails-suc :
      (p q : Publisher) (k : ℕ)
      → IsRetried (answers p.calls)
      → q.calls ≡ p.calls + 1
      → Fails q k
      → Fails p (suc k)
  Fails-suc p q k first c later zero h =
      let same : ◌≡◌ {A = ℕ} p.calls (p.calls + 0) = omega arith in
      subst (λ n. IsRetried (answers n)) same first
  Fails-suc p q k first c later (suc i) h =
      subst (λ n. IsRetried (answers n)) (next_call p q i c) (later i (omega (arith, h)))

  retried-Attempted :
      (delay : ℕ) (later : List ℕ) (p q : Publisher) (r : Bool × Publisher)
      → 0 < delay
      → IsRetried (answers p.calls)
      → q.calls ≡ p.calls + 1
      → q.slept ≡ pause later delay p.slept
      → Attempted later q r
      → Attempted (delay ∷ later) p r
  retried-Attempted delay [] p q r positive first c s (accepted k b f a e z) =
      absurd (omega (arith, b))
  retried-Attempted delay [] p q r positive first c s (invalid k b f a e z) =
      absurd (omega (arith, b))
  retried-Attempted delay [] p q r positive first c s (exhausted f e z) =
      exhausted (Fails-suc p q 0 first c f) (omega (arith, c, e)) (z ∙ ap (λ l. l ++ []) s)
  retried-Attempted delay (x ∷ l) p q r positive first c s (accepted k b f a e z) =
      accepted (suc k) (omega (arith, b)) (Fails-suc p q k first c f)
        (sym (ap answers (next_call p q k c)) ∙ a) (omega (arith, c, e))
        (slept-pause delay p.slept (take k (x ∷ l)) q.slept r.1.slept positive s z)
  retried-Attempted delay (x ∷ l) p q r positive first c s (invalid k b f a e z) =
      invalid (suc k) (omega (arith, b)) (Fails-suc p q k first c f)
        (sym (ap answers (next_call p q k c)) ∙ a) (omega (arith, c, e))
        (slept-pause delay p.slept (take k (x ∷ l)) q.slept r.1.slept positive s z)
  retried-Attempted delay (x ∷ l) p q r positive first c s (exhausted f e z) =
      exhausted (Fails-suc p q (suc (length l)) first c f) (omega (arith, c, e))
        (slept-pause delay p.slept (all_but_last (x ∷ l)) q.slept r.1.slept positive s z)

  no_failure : (p : Publisher) → Fails p 0
  no_failure p i h = absurd (omega (arith, h))

  try_each-Attempted :
      (schedule : List ℕ) (m : String × TaskMessage) (p : Publisher)
      → All (λ delay. 0 < delay) schedule
      → Attempted schedule p (try_each answers schedule m p)
  unfolding try_each
  try_each-Attempted [] m p positive =
      exhausted (no_failure p) (omega arith) (sym (append-nil p.slept))
  try_each-Attempted (delay ∷ later) m p positive =
      by_answer (answers p.calls) refl (λ q.
        try_each-Attempted later m (record q { slept = pause later delay q.slept }) positive.1)
    where
      first_call : answers (p.calls + 0) ≡ answers p.calls
      first_call = ap answers (omega arith)

      by_answer :
          (answer : EnqueueAnswer)
          → answers p.calls ≡ answer
          → ((q : Publisher)
              → Attempted later
                  (record q { slept = pause later delay q.slept })
                  (try_each answers later m (record q { slept = pause later delay q.slept })))
          → Attempted (delay ∷ later) p (
              enqueue_once answer m p (λ (q : Publisher).
                try_each answers later m (record q { slept = pause later delay q.slept })))
      by_answer EnqueueAnswer.accepted a h =
          accepted 0 (omega arith) (no_failure p) (first_call ∙ a) (omega arith)
            (sym (append-nil p.slept))
      by_answer EnqueueAnswer.invalid a h =
          invalid 0 (omega arith) (no_failure p) (first_call ∙ a) (omega arith)
            (sym (append-nil p.slept))
      by_answer EnqueueAnswer.lost a h =
          retried-Attempted delay later p _ _ positive.0 (subst IsRetried (sym a) lost) refl refl
            (h (take_message m p))
      by_answer EnqueueAnswer.unavailable a h =
          retried-Attempted delay later p _ _ positive.0 (subst IsRetried (sym a) unavailable) refl
            refl (h (record p { calls = p.calls + 1 }))

  -- Sending a message ends in one of three ways: with the first answer that accepts the message, with
  -- the first that finds it invalid, or with the fifth failure. It calls the queue once more than there
  -- were failures before that answer, or five times; and it waits 1, 2, 4 and 8 seconds after the first
  -- four failures, and not after the fifth.
  pub enqueue_with_retry-Attempted :
      (m : String × TaskMessage) (p : Publisher)
      → Attempted (1 ∷ 2 ∷ 4 ∷ 8 ∷ 16 ∷ []) p (enqueue_with_retry answers m p)
  unfolding enqueue_with_retry outbox_retry_schedule
  enqueue_with_retry-Attempted m p =
      try_each-Attempted
        (outbox_retry_schedule retry_initial_seconds retry_max_seconds max_attempts) m p
        (omega arith, (omega arith, (omega arith, (omega arith, (omega arith, tt)))))
