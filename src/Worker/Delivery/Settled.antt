-- ===== src/Worker/Delivery/Settled.antt =====
-- What an acknowledged task that was fresh leaves behind: worker/loop.py.
use agentic_cartoon_demo.Base.{
  ℕ, ◌≡◌, refl, ap, ◌∙◌, sym, subst, ◌⊎◌, inl, inr, Bool, true, false, not, ◌&&◌, Bool-cases,
  String, Option, none, some, Option-cases, if◌then◌else◌,
}
use agentic_cartoon_demo.Config.{WorkflowConfig}
use agentic_cartoon_demo.Exceptions.{
  Exception, Result, ok, err, lease_conflict, handler_not_found, runtime_error,
}
use agentic_cartoon_demo.Persistence.Types.{
  TaskRecord, TaskLease, WorkflowRecord, IdempotencyRecord,
}
use agentic_cartoon_demo.Persistence.Session.{Db, Action, pure, and_then, ◌>>=◌, ◌>>◌, transaction}
use agentic_cartoon_demo.Persistence.Session.Laws.{>>=-ok, guard-ok, transaction-ok}
use agentic_cartoon_demo.Persistence.WorkflowRepo.{Repo}
use agentic_cartoon_demo.Persistence.TaskLeaseRepo.{try_acquire, release}
use agentic_cartoon_demo.Persistence.IdempotencyRepo.{get_by_key}
use agentic_cartoon_demo.Worker.Types.{PendingDelivery}
use agentic_cartoon_demo.Worker.Idempotency.{check_before_execution, checked, completion_of}
use agentic_cartoon_demo.Worker.Retry.{is_exhausted, classify_exception}
use agentic_cartoon_demo.Worker.Handlers.Stages.{handle}
use agentic_cartoon_demo.Worker.Handlers.LogicalVersion.{resolve_logical_version}
use agentic_cartoon_demo.Worker.Commit.{commit_success_path}
use agentic_cartoon_demo.Worker.Failure.{
  handle_failure, handle_retryable_failure, handle_permanent_failure,
}
use agentic_cartoon_demo.Worker.Failure.Outcomes.{Failed, handle_permanent_failure-Failed}
use agentic_cartoon_demo.Worker.Delivery.{
  Loop, build_idempotency_key, finally_do, handled, try_except, context_of, attempt, run_task,
  execute, work, on_exception, under_lease, process_task,
}
use agentic_cartoon_demo.Worker.Commit.Recorded.{OnRecord, commit-OnRecord}

finally-ok {ℓ} :
    {A : Type ℓ} (m : Action A) (last : Action (Unit {0})) (db : Db) {a : A} {after : Db}
    → finally_do m last db ≡ (ok a, after)
    → (mid : Db) × (m db ≡ (ok a, mid)) × ((last mid).1 ≡ after)
finally-ok {A = A} m last db {a = a} {after = after} h = ended (m db).0 (last (m db).1).0 h
  where
    ended :
        (r : Result A) (q : Result (Unit {0}))
        → and_then q (λ _ d. (r, d)) (last (m db).1).1 ≡ (ok a, after)
        → (mid : Db) × ◌≡◌ {A = Result A × Db} (r, (m db).1) (ok a, mid) × ((last mid).1 ≡ after)
    ended (ok x) (ok u) k = ((m db).1, cc, cc)
    ended (err e) (ok u) k = cc
    ended r (err e) k = cc

module _ (repo : Repo) (config : WorkflowConfig) (loop : Loop) (delivery : PendingDelivery)
    (task : TaskRecord) (workflow : WorkflowRecord) where
  -- What an acknowledged task that was fresh has left: a completion on record under the key of one
  -- of its logical versions, or a task and a workflow that have failed.
  abbrev pub Settled : Db → Type 0
  Settled after =
      ((n : ℕ) × OnRecord (build_idempotency_key delivery.message.workflow_id task.task_type n)
          after)
      ⊎ ((error_class : String) × (exhausted : Bool) × Failed after delivery.message task
            error_class exhausted)

  run_task-OnRecord :
      (key : String) (db : Db) {u : Unit {0}} {after : Db}
      → transaction (run_task repo config loop delivery task workflow key) db ≡ (ok u, after)
      → OnRecord key after
  unfolding run_task
  run_task-OnRecord key db {after = after} h =
      let ctx = context_of delivery task workflow key in
      let stage = handle loop.outside delivery.message task.task_type task in
      let commit = commit_success_path repo config ctx in
      let (inner, ran, closed) =
        transaction-ok (run_task repo config loop delivery task workflow key) db h in
      let (active, h₀) =
        guard-ok true runtime_error (stage >>= commit) (record db { in_transaction = true }) ran in
      let (result, mid, h₁, k₁) = >>=-ok stage commit (record db { in_transaction = true }) h₀ in
      let (r, found) = commit-OnRecord repo config ctx result mid k₁ in
      (r, ap (λ (d : Db). completion_of key d) closed ∙ found)

  execute-OnRecord :
      (key : String) (db : Db) {b : Bool} {after : Db}
      → (check_before_execution key >>= λ pre.
            execute repo config loop delivery task workflow key pre.phase)
          db
        ≡ (ok b, after)
      → OnRecord key after
  unfolding check_before_execution get_by_key
  execute-OnRecord key db {b = b} {after = after} h =
      let answer = λ (o : Option IdempotencyRecord).
        execute repo config loop delivery task workflow key (checked key o).phase db in
      elim (Option-cases (completion_of key db)) [
        | inl missing ↦
            let run = run_task repo config loop delivery task workflow key in
            let entered : (transaction run >> pure true) db ≡ (ok b, after) =
              sym (ap answer missing) ∙ h in
            let (u, mid, h₁, k₁) = >>=-ok (transaction run) (λ _. pure true) db entered in
            let (r, found) = run_task-OnRecord key db h₁ in
            (r, ap (λ p. completion_of key p.1) (sym k₁) ∙ found)
        | inr (r, found) ↦ (
          r,
          ap (λ (p : Result Bool × Db). completion_of key p.1) (sym h ∙ ap answer found) ∙ found,
        )
      ]

  work-Settled :
      (db : Db) {b : Bool} {after : Db}
      → work repo config loop delivery task workflow db ≡ (ok b, after)
      → Settled after
  unfolding work
  work-Settled db h =
      let key = λ (n : ℕ). build_idempotency_key delivery.message.workflow_id task.task_type n in
      let (n, mid, h₁, k₁) =
        >>=-ok (resolve_logical_version loop.outside task.task_type task delivery.message)
          (λ n. check_before_execution (key n) >>= λ pre.
            execute repo config loop delivery task workflow (key n) pre.phase)
          db h in
      inl (n, execute-OnRecord (key n) mid k₁)

  -- What is given up after an exception has failed.
  answer-Settled :
      (retryable : Bool) (error_class reason : String) (db : Db) {after : Db}
      → (handle_failure repo config loop.policies delivery.message task.task_type task
              (attempt repo config loop delivery task workflow)
              retryable
              error_class
              reason
            >> pure (
                not (
                  retryable
                  && not (
                      is_exhausted loop.policies
                        (attempt repo config loop delivery task workflow)
                        task.task_type))))
          db
        ≡ (ok true, after)
      → Settled after
  unfolding handle_failure
  answer-Settled retryable error_class reason db {after = after} h =
      let tries = attempt repo config loop delivery task workflow in
      let exhausted = is_exhausted loop.policies tries task.task_type in
      let fail =
        handle_permanent_failure repo config delivery.message task.task_type task error_class
          exhausted false in
      let (u, mid, h₁, k₁) =
        >>=-ok
          (handle_failure repo config loop.policies delivery.message task.task_type task tries
            retryable error_class reason)
          (λ _. pure (not (retryable && not exhausted))) db h in
      let chosen =
        λ (c : Bool). (if c then handle_retryable_failure task tries reason else fail) db in
      elim (Bool-cases (retryable && not exhausted)) [
        | inl again ↦ cc
        | inr final ↦ inr (
          error_class,
          exhausted,
          subst (λ d. Failed d delivery.message task error_class exhausted) (ap (λ p. p.1) k₁)
              (handle_permanent_failure-Failed repo config delivery.message task.task_type task
                error_class exhausted db (sym (ap chosen final) ∙ h₁)),
        )
      ]

  on_exception-Settled :
      (e : Exception) (db : Db) {after : Db}
      → on_exception repo config loop delivery task workflow e db ≡ (ok true, after)
      → Settled after
  unfolding on_exception
  on_exception-Settled (lease_conflict x) db h = cc
  on_exception-Settled (handler_not_found type) db h =
      let fail =
        handle_permanent_failure repo config delivery.message type task "WKR_NO_HANDLER" false
          false in
      let (u, mid, h₁, k₁) = >>=-ok fail (λ _. pure true) db h in
      inr (
        "WKR_NO_HANDLER",
        false,
        subst (λ d. Failed d delivery.message task "WKR_NO_HANDLER" false) (ap (λ p. p.1) k₁)
            (handle_permanent_failure-Failed repo config delivery.message type task "WKR_NO_HANDLER"
              false db h₁),
      )
  on_exception-Settled e db h =
      answer-Settled (classify_exception e).0 (classify_exception e).1 (loop.text_of e) db h

  pub process_task-Settled :
      (db : Db) {after : Db}
      → process_task repo config loop delivery task workflow db ≡ (ok true, after)
      → Settled after
  unfolding process_task release
  process_task-Settled db {after = after} h =
      let under = under_lease repo config loop delivery task workflow in
      let (lease, mid, _, k₁) =
        >>=-ok (try_acquire delivery.message.task_id loop.worker_id loop.ttl) under db h in
      leased lease mid k₁
    where
      after_release :
          (lease_id : String) (end : Db) → Settled end → Settled (release lease_id end).1
      after_release lease_id end (inl recorded) = inl recorded
      after_release lease_id end (inr (error_class, exhausted, f)) = inr (
        error_class,
        exhausted,
        record {
          w = f.w;
          row = f.row;
          failed = f.failed;
          new = f.new;
          there = f.there;
          marked = f.marked;
          reason = f.reason;
        },
      )

      handled-Settled :
          (r : Result Bool) (mid : Db) {end : Db}
          → handled (on_exception repo config loop delivery task workflow) r mid ≡ (ok true, end)
          → ((b : Bool) → r ≡ ok b → Settled mid)
          → Settled end
      handled-Settled (ok b) mid {end = end} k settled =
          subst Settled (ap (λ p. p.1) k) (settled b refl)
      handled-Settled (err e) mid k settled = on_exception-Settled e mid k

      leased :
          (lease : Option TaskLease) (mid : Db)
          → under_lease repo config loop delivery task workflow lease mid ≡ (ok true, after)
          → Settled after
      leased none mid k = cc
      leased (some lease) mid k =
          let run = work repo config loop delivery task workflow in
          let (end, ran, released) =
            finally-ok (try_except run (on_exception repo config loop delivery task workflow))
              (release lease.lease_id) mid k in
          let settled =
            handled-Settled (run mid).0 (run mid).1 ran
              (λ b e. work-Settled mid (ap (λ r. (r, (run mid).1)) e)) in
          subst Settled released (after_release lease.lease_id end settled)
