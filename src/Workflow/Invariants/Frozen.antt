-- ===== src/Workflow/Invariants/Frozen.antt =====
-- The rows of finished workflows under the calls of workflow/engine.py.
use agentic_cartoon_demo.Base.{
  ◌≡◌, ap, ◌∙◌, sym, inl, inr, true, Bool-cases, String, List, some, ◌=str=◌, str_iff, arith,
}
use agentic_cartoon_demo.Config.{WorkflowConfig}
use agentic_cartoon_demo.Persistence.Types.{WorkflowRecord}
use agentic_cartoon_demo.Persistence.Session.{Db}
use agentic_cartoon_demo.Persistence.WorkflowRepo.{Repo}
use agentic_cartoon_demo.Workflow.Types.{WorkflowState, is_terminal}
use agentic_cartoon_demo.Workflow.Commands.{Command, run_all}
use agentic_cartoon_demo.Workflow.Effects.{Effect, tables, add, move, preserved, redispatch}
use agentic_cartoon_demo.Workflow.Commands.Effects.{run_all-Effects}
use agentic_cartoon_demo.Workflow.Invariants.Rows.{row_of, row-redispatched, row-others, row-kept}
use agentic_cartoon_demo.Workflow.Invariants.Gate.{Legal-Allowed, Allowed-is_terminal}

module _ (config : WorkflowConfig) (id : String) (w : WorkflowRecord) where
  terminal-kept :
      is_terminal w.state ≡ true
      → (db after : Db) → Effect config db after
      → row_of id db ≡ some w
      → row_of id after ≡ some w
  terminal-kept over db after (tables same) h = ap (λ (d : Db). row_of id d) same ∙ h
  terminal-kept over db after (add x c) h = elim (Bool-cases (x.workflow_id =str= id)) [
    | inl e ↦
        let free = ap (λ i. row_of i db) (sym ((str_iff x.workflow_id id).0 e)) ∙ c.fresh in cc
    | inr e ↦ row-kept db after x.workflow_id WorkflowState.created x c id e ∙ h
  ]
  terminal-kept over db after (move x x' t {type = type} legal c) h =
      elim (Bool-cases (x.workflow_id =str= id)) [
        | inl e ↦
            let there =
              ap (λ i. row_of i db) (sym ((str_iff x.workflow_id id).0 e)) ∙ c.moved.found in
            let running = Allowed-is_terminal (Legal-Allowed config x legal) in
            let same : x ≡ w = cc (there, h) in
            let over' = ap (λ (r : WorkflowRecord). is_terminal r.state) same ∙ over in
            absurd (ground (arith, running, over'))
        | inr e ↦ row-others db after type x x' t c.moved id e ∙ h
      ]
  terminal-kept over db after (redispatch workflow_id type d) h =
      row-redispatched db after workflow_id (some type) id d ∙ h

  -- The row of a workflow in a terminal state is never changed again by calls of the engine, in any
  -- order and with any outcome.
  pub run_all-terminal :
      (repo : Repo) (cs : List Command) (db : Db)
      → is_terminal w.state ≡ true
      → row_of id db ≡ some w
      → row_of id (run_all repo config cs db) ≡ some w
  run_all-terminal repo cs db over =
      preserved config (λ d. row_of id d ≡ some w) (terminal-kept over)
        (run_all-Effects config repo cs db)
