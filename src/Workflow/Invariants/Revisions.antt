-- ===== src/Workflow/Invariants/Revisions.antt =====
-- The revision counts that workflow/engine.py writes, and their cap.
use agentic_cartoon_demo.Base.{
  ℕ, ◌≡◌, ap, ◌∙◌, sym, subst, inl, inr, Bool-cases, String, List, ◌≤◌, ◌<◌, Option, none, some,
  get_or, ◌=str=◌, str_iff, arith,
}
use agentic_cartoon_demo.Config.{TaskType, WorkflowConfig}
use agentic_cartoon_demo.Persistence.Types.{WorkflowRecord}
use agentic_cartoon_demo.Persistence.Session.{Db}
use agentic_cartoon_demo.Persistence.WorkflowRepo.{Repo}
use agentic_cartoon_demo.Workflow.Types.{WorkflowState, TransitionSignal}
use agentic_cartoon_demo.Workflow.TransitionTable.Graph.{Edge, lookup-from, lookup-Enqueues_lem}
use agentic_cartoon_demo.Workflow.Commands.{Command, run_all}
use agentic_cartoon_demo.Workflow.Effects.{
  Legal, edge, human, initiation, Effect, tables, add, move, preserved, redispatch,
}
use agentic_cartoon_demo.Workflow.Commands.Effects.{run_all-Effects}
use agentic_cartoon_demo.Workflow.Invariants.Rows.{
  row_of, row-redispatched, row-moved, row-others, row-created, row-kept,
}

-- No row under the identifier has more revisions than the cap.
abbrev pub Caps : ℕ → Option WorkflowRecord → Type 0
Caps limit none = Unit
Caps limit (some w) = w.revision_count ≤ limit

abbrev pub IsCapped : WorkflowConfig → String → Db → Type 0
IsCapped config id db = Caps config.max_scenario_revisions (row_of id db)

Edge-revision :
    {count limit : ℕ} {s t : WorkflowState} {signal : TransitionSignal}
    → Edge count limit s signal t
    → t ≡ WorkflowState.revision_required
    → count < limit
Edge-revision (Edge.revise h) e = h
Edge-revision Edge.collect e = cc
Edge-revision Edge.pick e = cc
Edge-revision Edge.select e = cc
Edge-revision Edge.unsuitable e = cc
Edge-revision Edge.begin e = cc
Edge-revision Edge.generate e = cc
Edge-revision Edge.submit e = cc
Edge-revision Edge.pass e = cc
Edge-revision (Edge.give_up h) e = cc
Edge-revision Edge.redo e = cc
Edge-revision Edge.pause e = cc
Edge-revision (Edge.break h) e = cc
Edge-revision (Edge.exhaust h) e = cc
Edge-revision (Edge.time_out h) e = cc

module _ (config : WorkflowConfig) where
  Legal-capped :
      (w : WorkflowRecord) {to : WorkflowState} {count : Option ℕ} {type : Option TaskType}
      → Legal config w to count type
      → w.revision_count ≤ config.max_scenario_revisions
      → get_or count w.revision_count ≤ config.max_scenario_revisions
  Legal-capped w (edge signal d decided) h = elim (Bool-cases d.increment_revision_count) [
    | inl more ↦
        let limit = config.max_scenario_revisions in
        let to = (lookup-Enqueues_lem w.state signal w.revision_count limit d decided).1.0 more in
        let below =
          Edge-revision (lookup-from w.state signal w.revision_count limit d decided).1 to in
        ground (arith, more, below)
    | inr same ↦ ground (arith, same, h)
  ]
  Legal-capped w (human action waiting) h = h
  Legal-capped w (initiation new) h = h

  module _ (id : String) where
    effect-IsCapped :
        (db after : Db) → Effect config db after → IsCapped config id db → IsCapped config id after
    effect-IsCapped db after (tables same) a =
        subst (Caps config.max_scenario_revisions) (sym (ap (λ (d : Db). row_of id d) same)) a
    effect-IsCapped db after (add w c) a = elim (Bool-cases (w.workflow_id =str= id)) [
      | inl e ↦
          subst (Caps config.max_scenario_revisions)
            (sym (row-created db after w.workflow_id WorkflowState.created w c)
              ∙ ap (λ i. row_of i after) ((str_iff w.workflow_id id).0 e))
            (omega (arith, c.no_revision))
      | inr e ↦
          subst (Caps config.max_scenario_revisions)
            (sym (row-kept db after w.workflow_id WorkflowState.created w c id e)) a
    ]
    effect-IsCapped db after (move w w' t {count = count} {type = type} legal c) a =
        elim (Bool-cases (w.workflow_id =str= id)) [
          | inl e ↦
              let same = (str_iff w.workflow_id id).0 e in
              let before =
                subst (Caps config.max_scenario_revisions)
                  (ap (λ i. row_of i db) (sym same) ∙ c.moved.found) a in
              subst (Caps config.max_scenario_revisions)
                (sym (row-moved db after type w w' t c.moved) ∙ ap (λ i. row_of i after) same)
                (subst (λ n. n ≤ config.max_scenario_revisions) (sym c.new_count)
                  (Legal-capped w legal before))
          | inr e ↦
              subst (Caps config.max_scenario_revisions)
                (sym (row-others db after type w w' t c.moved id e)) a
        ]
    effect-IsCapped db after (redispatch workflow_id type d) a =
        subst (Caps config.max_scenario_revisions)
          (sym (row-redispatched db after workflow_id (some type) id d)) a

    -- Calls of the engine never bring a workflow's revision count over the configured cap.
    pub run_all-IsCapped :
        (repo : Repo) (cs : List Command) (db : Db)
        → IsCapped config id db
        → IsCapped config id (run_all repo config cs db)
    run_all-IsCapped repo cs db =
        preserved config (IsCapped config id) effect-IsCapped (run_all-Effects config repo cs db)
