-- ===== src/Workflow/Invariants/Outbox.antt =====
-- The entries that workflow/executor.py adds to the transactional outbox, and their tasks.
use agentic_cartoon_demo.Base.{
  ◌≡◌, ap, ◌∙◌, sym, subst₂, String, List, [], ◌∷◌, ◌++◌, Option, none, some, or_else, find,
  find-append, All, All-append, All-map, Any, Any-append_left, Any-append_right, inl, str_refl,
  arith,
}
use agentic_cartoon_demo.Config.{TaskType, WorkflowConfig}
use agentic_cartoon_demo.Persistence.Types.{TaskRecord, OutboxEntry}
use agentic_cartoon_demo.Persistence.Session.{Db}
use agentic_cartoon_demo.Persistence.WorkflowRepo.{Repo, task_key}
use agentic_cartoon_demo.Workflow.Executor.Effects.{IsTicket, Dispatch, nothing, ticket}
use agentic_cartoon_demo.Workflow.Commands.{Command, run_all}
use agentic_cartoon_demo.Workflow.Effects.{Effect, tables, add, move, preserved, redispatch}
use agentic_cartoon_demo.Workflow.Commands.Effects.{run_all-Effects}

-- The entry's task is there, of the entry's workflow, type and idempotency key.
abbrev pub IsBacked : List TaskRecord → OutboxEntry → Type 0
IsBacked tasks e =
    (task : TaskRecord) × (find task_key e.task_id tasks ≡ some task) × IsTicket task e

abbrev pub IsComplete : Db → Type 0
IsComplete db = All (IsBacked db.tasks) db.outbox

find-kept :
    (k : String) (ts us : List TaskRecord) (task : TaskRecord)
    → find task_key k ts ≡ some task
    → find task_key k (ts ++ us) ≡ some task
unfolding find
find-kept k ts us task h = find-append task_key k ts us ∙ ap (λ o. or_else o (find task_key k us)) h

find-new :
    (ts : List TaskRecord) (task : TaskRecord)
    → find task_key task.task_id ts ≡ none
    → find task_key task.task_id (ts ++ task ∷ []) ≡ some task
unfolding find
find-new ts task h =
    ground (arith, h, find-append task_key task.task_id ts (task ∷ []), str_refl task.task_id)

Dispatch-IsBacked :
    (old : List TaskRecord) (id : String) {type : Option TaskType} {added : List TaskRecord}
    {entries : List OutboxEntry}
    → Dispatch old id type added entries
    → All (IsBacked (old ++ added)) entries
Dispatch-IsBacked old id nothing = tt
Dispatch-IsBacked old id (ticket task e new type same t) = (
  (task, ap (λ i. find task_key i (old ++ task ∷ [])) t.same_task ∙ find-new old task new, t),
  tt,
)

-- A dispatch keeps the entries backed.
added-IsComplete :
    (db after : Db) (id : String) (type : Option TaskType) (added : List TaskRecord)
    (entries : List OutboxEntry)
    → Dispatch db.tasks id type added entries
    → after.tasks ≡ db.tasks ++ added
    → after.outbox ≡ db.outbox ++ entries
    → IsComplete db
    → IsComplete after
added-IsComplete db after id type added entries dispatch tasks_ outbox_ b =
    let all = db.tasks ++ added in
    let old =
      All-map (IsBacked db.tasks) (IsBacked all) db.outbox
        (λ e (task, there, t). (task, find-kept e.task_id db.tasks added task there, t)) b in
    subst₂ (λ ts es. All (IsBacked ts) es) (sym tasks_) (sym outbox_)
      (All-append (IsBacked all) db.outbox entries old (Dispatch-IsBacked db.tasks id dispatch))

effect-IsComplete :
    (config : WorkflowConfig) (db after : Db)
    → Effect config db after
    → IsComplete db
    → IsComplete after
effect-IsComplete config db after (tables same) b =
    subst₂ (λ ts es. All (IsBacked ts) es) (sym (ap (λ (d : Db). d.tasks) same))
      (sym (ap (λ (d : Db). d.outbox) same)) b
effect-IsComplete config db after (add w c) b =
    subst₂ (λ ts es. All (IsBacked ts) es) (sym (ap (λ (d : Db). d.tasks) c.stored))
      (sym (ap (λ (d : Db). d.outbox) c.stored)) b
effect-IsComplete config db after (move w w' t {type = type} legal c) b =
    let m = c.moved in
    added-IsComplete db after w.workflow_id type m.added_tasks m.added_entries m.dispatch m.tasks_
      m.outbox_ b
effect-IsComplete config db after (redispatch id type d) b =
    added-IsComplete db after id (some type) d.added_tasks d.added_entries d.dispatch d.tasks_
      d.outbox_ b

-- After any calls of the engine, with any outcome, every outbox entry names a stored task, and has
-- that task's workflow, type and idempotency key, if this was so before.
pub run_all-IsComplete :
    (repo : Repo) (config : WorkflowConfig) (cs : List Command) (db : Db)
    → IsComplete db
    → IsComplete (run_all repo config cs db)
run_all-IsComplete repo config cs db =
    preserved config IsComplete (effect-IsComplete config) (run_all-Effects config repo cs db)

-- An entry of the outbox names the task, and has its workflow, type and idempotency key.
abbrev pub IsTicketed : List OutboxEntry → TaskRecord → Type 0
IsTicketed entries task = Any (IsTicket task) entries

abbrev pub IsEnqueued : Db → Type 0
IsEnqueued db = All (IsTicketed db.outbox) db.tasks

Dispatch-IsTicketed :
    (old : List OutboxEntry) {id : String} {ts : List TaskRecord} {type : Option TaskType}
    {added : List TaskRecord} {entries : List OutboxEntry}
    → Dispatch ts id type added entries
    → All (IsTicketed (old ++ entries)) added
Dispatch-IsTicketed old nothing = tt
Dispatch-IsTicketed old (ticket task e new type same t) =
    (Any-append_right (IsTicket task) old (e ∷ []) (inl t), tt)

-- A dispatch keeps the tasks enqueued.
added-IsEnqueued :
    (db after : Db) (id : String) (type : Option TaskType) (added : List TaskRecord)
    (entries : List OutboxEntry)
    → Dispatch db.tasks id type added entries
    → after.tasks ≡ db.tasks ++ added
    → after.outbox ≡ db.outbox ++ entries
    → IsEnqueued db
    → IsEnqueued after
added-IsEnqueued db after id type added entries dispatch tasks_ outbox_ b =
    let all = db.outbox ++ entries in
    let old =
      All-map (IsTicketed db.outbox) (IsTicketed all) db.tasks
        (λ task h. Any-append_left (IsTicket task) db.outbox entries h) b in
    subst₂ (λ ts es. All (IsTicketed es) ts) (sym tasks_) (sym outbox_)
      (All-append (IsTicketed all) db.tasks added old (Dispatch-IsTicketed db.outbox dispatch))

effect-IsEnqueued :
    (config : WorkflowConfig) (db after : Db)
    → Effect config db after
    → IsEnqueued db
    → IsEnqueued after
effect-IsEnqueued config db after (tables same) b =
    subst₂ (λ ts es. All (IsTicketed es) ts) (sym (ap (λ (d : Db). d.tasks) same))
      (sym (ap (λ (d : Db). d.outbox) same)) b
effect-IsEnqueued config db after (add w c) b =
    subst₂ (λ ts es. All (IsTicketed es) ts) (sym (ap (λ (d : Db). d.tasks) c.stored))
      (sym (ap (λ (d : Db). d.outbox) c.stored)) b
effect-IsEnqueued config db after (move w w' t {type = type} legal c) b =
    let m = c.moved in
    added-IsEnqueued db after w.workflow_id type m.added_tasks m.added_entries m.dispatch m.tasks_
      m.outbox_ b
effect-IsEnqueued config db after (redispatch id type d) b =
    added-IsEnqueued db after id (some type) d.added_tasks d.added_entries d.dispatch d.tasks_
      d.outbox_ b

-- After any calls of the engine, with any outcome, every stored task is named by an outbox entry that
-- has its workflow, type and idempotency key, if this was so before: no task is stored without being
-- enqueued.
pub run_all-IsEnqueued :
    (repo : Repo) (config : WorkflowConfig) (cs : List Command) (db : Db)
    → IsEnqueued db
    → IsEnqueued (run_all repo config cs db)
run_all-IsEnqueued repo config cs db =
    preserved config IsEnqueued (effect-IsEnqueued config) (run_all-Effects config repo cs db)
