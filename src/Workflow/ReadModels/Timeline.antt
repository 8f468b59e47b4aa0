-- ===== src/Workflow/ReadModels/Timeline.antt =====
-- The order of a timeline's events: workflow/read_models.py.
use agentic_cartoon_demo.Base.{
  ◌≡◌, ◌<◌, refl, ap, inl, inr, ◌⊎◌, Bool, if◌then◌else◌, Bool-cases, ltb, eqb, true, false, String,
  List, [], ◌++◌, map, filter, All, All-map, sort, sort-perm, IsOrdered, sort-IsOrdered, ◌∷◌,
  text_leb, text_leb_total, text_leb_trans, none, some, leb, arith,
}
use mathlib.Core.List.{Perm}
use mathlib.Core.List.Perm
use agentic_cartoon_demo.Exceptions.{ok}
use agentic_cartoon_demo.Persistence.Types.{WorkflowRecord, TaskRecord}
use agentic_cartoon_demo.Persistence.Session.{Db, ◌>>=◌}
use agentic_cartoon_demo.Persistence.WorkflowRepo.{
  Repo, postgres, workflow_fake, get_workflow, list_transitions, transition_of,
}
use agentic_cartoon_demo.Persistence.Listings.{list_tasks_for_workflow, task_of_workflow}
use agentic_cartoon_demo.Persistence.ArtifactRepo.{list_ai_invocations, is_invoked_by}
use agentic_cartoon_demo.Workflow.Invariants.Rows.{row_of}
use agentic_cartoon_demo.Workflow.ReadModels.{
  EventType, TimelineEvent, WorkflowTimeline, event_type_rank, transition_event, task_event,
  invocation_event, event_leb, known, assemble_timeline, get_workflow_timeline,
}

event_leb_total : (a b : TimelineEvent) → event_leb a b ≡ false → event_leb b a ≡ true
event_leb_total a b h = ground (arith, text_leb_total a.stable_id b.stable_id)

event_leb_trans :
    (a b c : TimelineEvent) → event_leb a b ≡ true → event_leb b c ≡ true → event_leb a c ≡ true
event_leb_trans a b c h k = ground (arith, text_leb_trans a.stable_id b.stable_id c.stable_id)

-- Of events of one time, the transitions come first, then the tasks, then the calls of agents.
pub data KindBefore : EventType → EventType → Type 0 where
  moved_first : KindBefore EventType.transition EventType.task_enqueued
  moved_before_called : KindBefore EventType.transition EventType.ai_invocation
  task_before_called : KindBefore EventType.task_enqueued EventType.ai_invocation

pub data Before (a b : TimelineEvent) : Type 0 where
  earlier : a.occurred_at < b.occurred_at → Before a b
  of_kind : a.occurred_at ≡ b.occurred_at → KindBefore a.event_type b.event_type → Before a b
  of_id :
      a.occurred_at ≡ b.occurred_at
      → a.event_type ≡ b.event_type
      → text_leb a.stable_id b.stable_id ≡ true
      → Before a b

-- Every event is before all later ones.
abbrev pub InOrder : List TimelineEvent → Type 0
InOrder [] = Unit
InOrder (a ∷ events) = All (Before a) events × InOrder events

-- The rows of the tables that a timeline tells of; the PostgreSQL repository lists no tasks.
abbrev pub tasks_of : Repo → String → Db → List TaskRecord
tasks_of postgres id db = []
tasks_of workflow_fake id db = filter (task_of_workflow id) db.tasks

abbrev pub told : Repo → String → Db → List TimelineEvent
told repo id db =
    map transition_event (filter (transition_of id) db.workflow_transitions)
    ++ (map task_event (tasks_of repo id db)
        ++ map invocation_event (filter (is_invoked_by id none) db.ai_invocations))

-- The events are in order, and they are those of the tables.
pub record IsChronological (repo : Repo) (id : String) (db : Db) (t : WorkflowTimeline)
    : Type 0 where
  pub of_workflow : t.workflow_id ≡ id
  pub ordered : InOrder t.events
  pub complete : Perm t.events (told repo id db)

-- The comparison of two events of one time.
rank-KindBefore :
    (k l : EventType) (ids : Bool)
    → (if eqb (event_type_rank k) (event_type_rank l)
        then ids
        else ltb (event_type_rank k) (event_type_rank l))
      ≡ true
    → ((k ≡ l) × (ids ≡ true)) ⊎ KindBefore k l
rank-KindBefore EventType.transition EventType.task_enqueued ids h = inr moved_first
rank-KindBefore EventType.transition EventType.ai_invocation ids h = inr moved_before_called
rank-KindBefore EventType.task_enqueued EventType.ai_invocation ids h = inr task_before_called
rank-KindBefore EventType.transition EventType.transition ids h = inl (refl, h)
rank-KindBefore EventType.task_enqueued EventType.task_enqueued ids h = inl (refl, h)
rank-KindBefore EventType.ai_invocation EventType.ai_invocation ids h = inl (refl, h)
rank-KindBefore _ _ ids h = cc

event_leb-Before : (a b : TimelineEvent) → event_leb a b ≡ true → Before a b
event_leb-Before a b h = elim (Bool-cases (eqb a.occurred_at b.occurred_at)) [
  | inr e ↦ earlier (ground (arith, e, h))
  | inl e ↦
      let same : a.occurred_at ≡ b.occurred_at = ground (arith, e) in
      elim (rank-KindBefore a.event_type b.event_type (text_leb a.stable_id b.stable_id)
        (ground (arith, e, h))) [
          | inl (kind, ids) ↦ of_id same kind ids
          | inr kind ↦ of_kind same kind
        ]
]

IsOrdered-InOrder : (events : List TimelineEvent) → IsOrdered event_leb events → InOrder events
IsOrdered-InOrder [] h = tt
IsOrdered-InOrder (a ∷ events) h = (
  All-map (λ b. event_leb a b ≡ true) (Before a) events (event_leb-Before a) h.0,
  IsOrdered-InOrder events h.1,
)

tasks-perm :
    (repo : Repo) (id : String) (db : Db)
    → Perm (list_tasks_for_workflow repo id db) (tasks_of repo id db)
unfolding list_tasks_for_workflow
tasks-perm postgres id db = Perm.rfl
tasks-perm workflow_fake id db =
    sort-perm (λ a b. leb a.created_at b.created_at) (filter (task_of_workflow id) db.tasks)

-- The timeline of a workflow that has a row is returned, and no table changes. Its events are the
-- workflow's transitions, its tasks and its calls of agents, each exactly once, except that the
-- PostgreSQL repository tells of no tasks; and every event is before all later ones: at an earlier
-- time; or at the same time, where transitions come before tasks and these before calls of agents; or
-- at the same time and of the same kind, with an identifier that is not greater.
pub get_workflow_timeline-IsChronological :
    (repo : Repo) (id : String) (db : Db) (w : WorkflowRecord)
    → row_of id db ≡ some w
    → (t : WorkflowTimeline) × (get_workflow_timeline repo id db ≡ (ok t, db))
      × IsChronological repo id db t
unfolding get_workflow_timeline get_workflow assemble_timeline list_transitions list_ai_invocations
get_workflow_timeline-IsChronological repo id db w found =
    let transitions = filter (transition_of id) db.workflow_transitions in
    let invocations = filter (is_invoked_by id none) db.ai_invocations in
    let by_time = sort (λ a b. leb a.occurred_at b.occurred_at) transitions in
    let by_start = sort (λ a b. leb a.invocation.started_at b.invocation.started_at) invocations in
    let events =
      map transition_event by_time
      ++ (map task_event (list_tasks_for_workflow repo id db) ++ map invocation_event by_start) in
    (
      record { workflow_id = id; events = sort event_leb events },
      ap (λ o. (known id o >>= λ _. assemble_timeline repo id) db) found,
      record {
        of_workflow = refl;
        ordered =
            IsOrdered-InOrder (sort event_leb events)
              (sort-IsOrdered event_leb event_leb_total event_leb_trans events);
        complete = Perm.trans (sort-perm event_leb events) (
            Perm.append
              (Perm.map transition_event
                (sort-perm (λ a b. leb a.occurred_at b.occurred_at) transitions))
              (Perm.append (Perm.map task_event (tasks-perm repo id db)) (
                Perm.map invocation_event (
                  sort-perm (λ a b. leb a.invocation.started_at b.invocation.started_at)
                    invocations))));
      },
    )
