-- ===== src/Worker/Failure/Outcomes.antt =====
-- What the failure paths of worker/loop.py leave behind when they return.
use agentic_cartoon_demo.Base.{
  ℕ, ◌+◌, ◌<◌, leb→gt, ◌≡◌, refl, ap, ◌∙◌, sym, subst, ◌⊎◌, inl, inr, Bool, true, false, not, ◌&&◌,
  Bool-cases, Option-cases, String, Option, none, some, get_or, or_else, find, find-key,
  find-replace, replace, if◌then◌else◌, str_refl, arith,
}
use agentic_cartoon_demo.Config.{TaskType, WorkflowConfig}
use agentic_cartoon_demo.Exceptions.{ok, runtime_error}
use agentic_cartoon_demo.Persistence.Types.{TaskRecord, TaskStatus, WorkflowRecord}
use agentic_cartoon_demo.Persistence.Session.{Db, pure, ◌>>=◌}
use agentic_cartoon_demo.Persistence.Session.Laws.{>>=-ok, guard-ok, transaction-ok}
use agentic_cartoon_demo.Persistence.WorkflowRepo.{Repo, task_key, workflow_key, amend, update_task}
use agentic_cartoon_demo.Workflow.Types.{WorkflowState, TransitionSignal}
use agentic_cartoon_demo.Workflow.TransitionTable.Graph.{Edge}
use agentic_cartoon_demo.Workflow.Engine.{apply_transition}
use agentic_cartoon_demo.Workflow.Engine.Outcomes.{apply_transition-Applied}
use agentic_cartoon_demo.Workflow.Invariants.Rows.{row_of}
use agentic_cartoon_demo.Worker.Types.{TaskMessage}
use agentic_cartoon_demo.Worker.Retry.{RetryPolicies, is_exhausted}
use agentic_cartoon_demo.Worker.Commit.Bridge.{Applied-Stepped}
use agentic_cartoon_demo.Worker.Failure.{
  failure_signal, failure_status, failure_request, write_retry, handle_retryable_failure, mark_task,
  write_failure, handle_permanent_failure, handle_failure,
}

-- The row of a task.
abbrev pub task_of : String → Db → Option TaskRecord
task_of id db = find task_key id db.tasks

-- The task's row has the new values, and no other table changed.
pub record Updated (db after : Db) (id : String) (status : TaskStatus) (attempt : Option ℕ)
    (reason : Option String) : Type 0 where
  pub old : TaskRecord
  pub new : TaskRecord
  pub found : task_of id db ≡ some old
  pub there : task_of id after ≡ some new
  pub new_status : new.status ≡ status
  pub new_attempt : new.attempt ≡ get_or attempt old.attempt
  pub new_reason : new.failure_reason ≡ or_else reason old.failure_reason
  pub workflows_ : after.workflows ≡ db.workflows

pub update_task-Updated :
    (id : String) (status : TaskStatus) (attempt : Option ℕ) (reason : Option String)
    (completed_at : Option ℕ) (db : Db) {t : TaskRecord} {after : Db}
    → update_task id status attempt reason completed_at db ≡ (ok t, after)
    → Updated db after id status attempt reason
unfolding update_task
update_task-Updated id status attempt reason completed_at db {t = t} {after = after} h =
    elim (Option-cases (task_of id db)) [
      | inl missing ↦ absurd (ground (arith, missing))
      | inr (old, found) ↦
          let now_ = db.environment.utcnow db.requests in
          let f = amend now_ status attempt reason completed_at in
          let key = find-key task_key id db.tasks old found in
          let moved = find-replace task_key old.task_id id f db.tasks (λ r k. k) in
          let stored : after ≡ record db {
            tasks = replace task_key old.task_id f db.tasks;
            requests = db.requests + 1;
          } =
            ground (arith, found) in
          record {
            old = old;
            new = f old;
            found = found;
            there =
                ap (λ (d : Db). task_of id d) stored
                ∙ ground (arith, moved, key, found, str_refl id);
            new_status = refl;
            new_attempt = refl;
            new_reason = refl;
            workflows_ = ap (λ (d : Db). d.workflows) stored;
          }
    ]

-- A retry that returns has sent the task back with one attempt more.
pub record Retried (db after : Db) (task : TaskRecord) (attempt : ℕ) (reason : String)
    : Type 0 where
  pub new : TaskRecord
  pub there : task_of task.task_id after ≡ some new
  pub dispatched : new.status ≡ TaskStatus.dispatched
  pub next_attempt : new.attempt ≡ attempt + 1
  pub workflows_ : after.workflows ≡ db.workflows

write_retry-Updated :
    (task : TaskRecord) (attempt : ℕ) (reason : String) (db : Db) {u : Unit {0}} {after : Db}
    → write_retry task attempt reason db ≡ (ok u, after)
    → Updated db after task.task_id TaskStatus.dispatched (some (attempt + 1)) (some reason)
write_retry-Updated task attempt reason db {after = after} h =
    let update =
      update_task task.task_id TaskStatus.dispatched (some (attempt + 1)) (some reason) none in
    let (t, mid, h₁, k₁) = >>=-ok update (λ _. pure tt) db h in
    subst (λ d. Updated db d task.task_id TaskStatus.dispatched (some (attempt + 1)) (some reason))
      (ap (λ p. p.1) k₁)
      (update_task-Updated task.task_id TaskStatus.dispatched (some (attempt + 1)) (some reason)
        none db h₁)

-- When the handling of a retryable failure returns, the task is DISPATCHED with one attempt more, and
-- no workflow has changed.
pub handle_retryable_failure-Retried :
    (task : TaskRecord) (attempt : ℕ) (reason : String) (db : Db) {u : Unit {0}} {after : Db}
    → handle_retryable_failure task attempt reason db ≡ (ok u, after)
    → Retried db after task attempt reason
unfolding handle_retryable_failure
handle_retryable_failure-Retried task attempt reason db {after = after} h =
    let (inner, ran, closed) = transaction-ok (write_retry task attempt reason) db h in
    let v = write_retry-Updated task attempt reason (record db { in_transaction = true }) ran in
    record {
      new = v.new;
      there = ap (λ (d : Db). task_of task.task_id d) closed ∙ v.there;
      dispatched = v.new_status;
      next_attempt = v.new_attempt;
      workflows_ = ap (λ (d : Db). d.workflows) closed ∙ v.workflows_;
    }

Edge-failure :
    {count limit : ℕ} {s t : WorkflowState} {signal : TransitionSignal}
    → Edge count limit s signal t
    → (exhausted : Bool) → signal ≡ failure_signal exhausted
    → t ≡ (if exhausted then WorkflowState.failed_permanently else WorkflowState.failed)
Edge-failure (Edge.break h) true e = cc
Edge-failure (Edge.break h) false e = refl
Edge-failure (Edge.exhaust h) true e = refl
Edge-failure (Edge.exhaust h) false e = cc
Edge-failure (Edge.time_out h) true e = cc
Edge-failure (Edge.time_out h) false e = cc
Edge-failure (Edge.revise h) true e = cc
Edge-failure (Edge.revise h) false e = cc
Edge-failure (Edge.give_up h) true e = cc
Edge-failure (Edge.give_up h) false e = cc
Edge-failure Edge.collect true e = cc
Edge-failure Edge.collect false e = cc
Edge-failure _ true e = cc
Edge-failure _ false e = cc

-- What a permanent failure leaves behind.
pub record Failed (after : Db) (message : TaskMessage) (task : TaskRecord) (error_class : String)
    (exhausted : Bool) : Type 0 where
  pub w : WorkflowRecord
  pub row : row_of message.workflow_id after ≡ some w
  pub failed :
      w.state ≡ (if exhausted then WorkflowState.failed_permanently else WorkflowState.failed)
  pub new : TaskRecord
  pub there : task_of task.task_id after ≡ some new
  pub marked : new.status ≡ failure_status exhausted
  pub reason : new.failure_reason ≡ some error_class

module _ (repo : Repo) (config : WorkflowConfig) (message : TaskMessage) (task_type : TaskType)
    (task : TaskRecord) (error_class : String) (exhausted : Bool) where
  write_failure-Failed :
      (db : Db) {u : Unit {0}} {after : Db}
      → write_failure repo config message task_type task error_class exhausted db ≡ (ok u, after)
      → Failed after message task error_class exhausted
  write_failure-Failed db {after = after} h =
      let request = failure_request message task_type exhausted error_class in
      let status = failure_status exhausted in
      let mark = mark_task repo config task status error_class in
      let update = update_task task.task_id status none (some error_class) none in
      let (active, h₀) =
        guard-ok db.in_transaction runtime_error
          (apply_transition repo config request >>= λ _. mark) db h in
      let (r, s₁, h₁, k₁) = >>=-ok (apply_transition repo config request) (λ _. mark) db h₀ in
      let (t, s₂, h₂, k₂) = >>=-ok update (λ _. pure tt) s₁ k₁ in
      let a = apply_transition-Applied repo config request db h₁ in
      let s = Applied-Stepped config request db s₁ r a.w a a.found in
      let v =
        subst (λ d. Updated s₁ d task.task_id status none (some error_class)) (ap (λ p. p.1) k₂)
          (update_task-Updated task.task_id status none (some error_class) none s₁ h₂) in
      record {
        w = s.w';
        row = ap (find workflow_key message.workflow_id) v.workflows_ ∙ s.row;
        failed = Edge-failure s.edge exhausted refl;
        new = v.new;
        there = v.there;
        marked = v.new_status;
        reason = v.new_reason;
      }

  -- When the handling of a permanent failure returns, the workflow is in FAILED_PERMANENTLY if the
  -- attempts are exhausted and in FAILED otherwise, and the task is DEAD_LETTER or FAILED
  -- accordingly, with the error's class as its failure reason.
  pub handle_permanent_failure-Failed :
      (db : Db) {u : Unit {0}} {after : Db}
      → handle_permanent_failure repo config message task_type task error_class exhausted false db
        ≡ (ok u, after)
      → Failed after message task error_class exhausted
  unfolding handle_permanent_failure
  handle_permanent_failure-Failed db {after = after} h =
      let (inner, ran, closed) =
        transaction-ok (write_failure repo config message task_type task error_class exhausted) db
          h in
      let v = write_failure-Failed (record db { in_transaction = true }) ran in
      record {
        w = v.w;
        row = ap (λ (d : Db). row_of message.workflow_id d) closed ∙ v.row;
        failed = v.failed;
        new = v.new;
        there = ap (λ (d : Db). task_of task.task_id d) closed ∙ v.there;
        marked = v.marked;
        reason = v.reason;
      }

-- When the worker's handling of an exception returns, either the task was sent back, which happens
-- only while its attempts are below the policy's maximum; or it has failed for good, with its
-- workflow.
pub handle_failure-ends :
    (repo : Repo) (config : WorkflowConfig) (policies : RetryPolicies) (message : TaskMessage)
    (task_type : TaskType) (task : TaskRecord) (attempt : ℕ) (retryable : Bool)
    (error_class reason : String) (db : Db) {u : Unit {0}} {after : Db}
    → handle_failure repo config policies message task_type task attempt retryable error_class
        reason db
      ≡ (ok u, after)
    → (Retried db after task attempt reason × (attempt < policies.max_attempts task_type))
      ⊎ Failed after message task error_class (is_exhausted policies attempt task_type)
unfolding handle_failure
handle_failure-ends repo config policies message task_type task attempt retryable error_class reason
      db {u = u} {after = after} h =
    let exhausted = is_exhausted policies attempt task_type in
    let retry = handle_retryable_failure task attempt reason in
    let fail =
      handle_permanent_failure repo config message task_type task error_class exhausted false in
    let chosen = λ (c : Bool). (if c then retry else fail) db in
    elim (Bool-cases (retryable && not exhausted)) [
      | inl e ↦
          let below : attempt < policies.max_attempts task_type =
            leb→gt (policies.max_attempts task_type) attempt (ground (arith, e)) in
          inl
            (handle_retryable_failure-Retried task attempt reason db (sym (ap chosen e) ∙ h), below)
      | inr e ↦ inr (
          handle_permanent_failure-Failed repo config message task_type task error_class exhausted
            db (sym (ap chosen e) ∙ h))
    ]
