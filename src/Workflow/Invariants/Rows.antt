-- ===== src/Workflow/Invariants/Rows.antt =====
-- How the rows under one identifier change.
use agentic_cartoon_demo.Base.{
  ◌≡◌, refl, ap, false, String, [], ◌∷◌, ◌++◌, Option, none, some, find, find-append, find-replace,
  ◌=str=◌, str_refl, or_else, arith,
}
use agentic_cartoon_demo.Persistence.Types.{WorkflowRecord, WorkflowTransitionRecord}
use agentic_cartoon_demo.Persistence.Session.{Db}
use agentic_cartoon_demo.Persistence.WorkflowRepo.{workflow_key}
use agentic_cartoon_demo.Persistence.WorkflowRepo.Effects.{Created}
use agentic_cartoon_demo.Workflow.Types.{WorkflowState}
use agentic_cartoon_demo.Workflow.Executor.Effects.{Dispatched, Moved}
use agentic_cartoon_demo.Config.{TaskType}

-- The row of a workflow.
abbrev pub row_of : String → Db → Option WorkflowRecord
row_of id db = find workflow_key id db.workflows

-- A dispatch alone changes no row of a workflow.
pub row-redispatched :
    (db after : Db) (workflow_id : String) (type : Option TaskType) (id : String)
    → Dispatched db after workflow_id type
    → row_of id after ≡ row_of id db
row-redispatched db after workflow_id type id d = ap (find workflow_key id) d.workflows_

module _ (db after : Db) (type : Option TaskType) (w w' : WorkflowRecord)
    (t : WorkflowTransitionRecord) (m : Moved db after type w w' t) where
  pub row-moved : row_of w.workflow_id after ≡ some w'
  row-moved =
      let there =
        find-replace workflow_key w.workflow_id w.workflow_id (λ _. w') db.workflows
          (λ r _. m.same_id) in
      ground (arith, m.workflows_, m.found, there, str_refl w.workflow_id)

  pub row-others : (id : String) → (w.workflow_id =str= id) ≡ false → row_of id after ≡ row_of id db
  row-others id other =
      let there =
        find-replace workflow_key w.workflow_id id (λ _. w') db.workflows (λ r _. m.same_id) in
      ground (arith, m.workflows_, there, other)

module _ (db after : Db) (id : String) (s : WorkflowState) (w : WorkflowRecord)
    (c : Created db after id s w) where
  rows : after.workflows ≡ db.workflows ++ w ∷ []
  rows = ap (λ (d : Db). d.workflows) c.stored

  pub row-created : row_of id after ≡ some w
  unfolding find
  row-created =
      ground
        (arith, rows, c.fresh, find-append workflow_key id db.workflows (w ∷ []), c.id, str_refl id)

  pub row-kept : (j : String) → (id =str= j) ≡ false → row_of j after ≡ row_of j db
  unfolding find
  row-kept j other = ground (
    arith,
    rows,
    find-append workflow_key j db.workflows (w ∷ []),
    c.id,
    other,
    Option-or_none (row_of j db),
  )
    where
      Option-or_none : (o : Option WorkflowRecord) → or_else o none ≡ o
      Option-or_none none = refl
      Option-or_none (some x) = refl
