-- ===== src/Workflow/Engine/Refusals.antt =====
-- The errors of workflow/engine.py: when a method raises, which exception, and with no row written.
use agentic_cartoon_demo.Base.{
  ℕ, ◌≡◌, refl, ap, ◌∙◌, ◌≢◌, inl, inr, true, false, not, Bool-cases, String, Option, none, some,
  find, arith,
}
use agentic_cartoon_demo.Config.{WorkflowConfig}
use agentic_cartoon_demo.Exceptions.{
  Exception, Result, ok, err, workflow_not_found, workflow_conflict, workflow_terminal,
  invalid_transition, invalid_approval,
}
use agentic_cartoon_demo.Persistence.Types.{WorkflowRecord}
use agentic_cartoon_demo.Persistence.Session.{Db, Action, ◌>>=◌, ◌>>◌, raise_unless}
use agentic_cartoon_demo.Persistence.Session.Laws.{guard-step, guard-err}
use agentic_cartoon_demo.Persistence.WorkflowRepo.{workflow_key, Repo}
use agentic_cartoon_demo.Workflow.Types.{
  WorkflowState, TransitionSignal, ApprovalAction, state_eq, state_eq_iff, is_terminal,
}
use agentic_cartoon_demo.Workflow.TransitionTable.{TransitionDecision, lookup, lookup_approval}
use agentic_cartoon_demo.Workflow.TransitionTable.Graph.{Edge, lookup-from}
use agentic_cartoon_demo.Workflow.Executor.{ApprovalActionResult}
use agentic_cartoon_demo.Workflow.Engine.Inversion.{located-step, located-err}
use agentic_cartoon_demo.Workflow.Engine.{
  TransitionRequest, move_workflow, apply_transition, carry_out, relabel, with_reason,
  check_approval, approve_workflow, apply_approval_action,
}

-- Why a transition is refused, by the row that was found, and the exception that says so.
pub data Refuses (config : WorkflowConfig) (request : TransitionRequest)
    : Option WorkflowRecord → Exception → Type 0 where
  missing : Refuses config request none (workflow_not_found request.workflow_id)
  conflict :
      (w : WorkflowRecord)
      → w.state ≢ request.expected_state
      → Refuses config request (some w) (workflow_conflict request.workflow_id)
  no_edge :
      (w : WorkflowRecord)
      → w.state ≡ request.expected_state
      → ((to : WorkflowState)
          → Edge w.revision_count config.max_scenario_revisions w.state request.signal to
          → ⊥)
      → Refuses config request
          (some w)
          (invalid_transition request.workflow_id w.state request.signal)

pub data RefusesApproval (workflow_id : String) (action : ApprovalAction)
    : Option WorkflowRecord → Exception → Type 0 where
  unknown : RefusesApproval workflow_id action none (workflow_not_found workflow_id)
  finished :
      (w : WorkflowRecord)
      → is_terminal w.state ≡ true
      → RefusesApproval workflow_id action (some w) (workflow_terminal workflow_id w.state)
  not_waiting :
      (w : WorkflowRecord)
      → is_terminal w.state ≡ false
      → w.state ≢ WorkflowState.awaiting_human_approval
      → RefusesApproval workflow_id action (some w) (invalid_approval workflow_id action w.state)

-- Where the diagram has no edge, the lookup refuses.
lookup-refused :
    (s : WorkflowState) (signal : TransitionSignal) (count limit : ℕ)
    → ((to : WorkflowState) → Edge count limit s signal to → ⊥)
    → (e : Exception) × (lookup s signal count limit ≡ err e)
lookup-refused s signal count limit closed = by_result (lookup s signal count limit) refl
  where
    by_result :
        (r : Result TransitionDecision)
        → lookup s signal count limit ≡ r
        → (e : Exception) × (lookup s signal count limit ≡ err e)
    by_result (err e) h = (e, h)
    by_result (ok d) h = absurd (closed d.to_state (lookup-from s signal count limit d h).1)

state_eq-false : (a b : WorkflowState) → a ≢ b → state_eq a b ≡ false
state_eq-false a b different = elim (Bool-cases (state_eq a b)) [
  | inl e ↦ absurd (different ((state_eq_iff a b).0 e))
  | inr e ↦ e
]

terminal-other :
    (s : WorkflowState)
    → is_terminal s ≡ true
    → state_eq s WorkflowState.awaiting_human_approval ≡ false
unfolding state_eq
terminal-other WorkflowState.awaiting_human_approval h = cc
terminal-other WorkflowState.created h = refl
terminal-other _ h = refl

module _ (repo : Repo) (config : WorkflowConfig) (request : TransitionRequest) (db : Db) where
  move-refused :
      (w : WorkflowRecord) (e : Exception)
      → w.state ≡ request.expected_state
      → lookup w.state request.signal w.revision_count config.max_scenario_revisions ≡ err e
      → move_workflow repo config request w db
        ≡ (err (invalid_transition request.workflow_id w.state request.signal), db)
  unfolding move_workflow
  move-refused w e expected refused =
      let found_state =
        lookup w.state request.signal w.revision_count config.max_scenario_revisions in
      let error = invalid_transition request.workflow_id w.state request.signal in
      let go =
        λ (d : TransitionDecision). carry_out repo config w request (with_reason request d) in
      let rest = relabel request.workflow_id w.state request.signal found_state >>= go in
      guard-step (state_eq w.state request.expected_state) (workflow_conflict request.workflow_id)
        (raise_unless (not (is_terminal w.state)) error >> rest) db
        ((state_eq_iff w.state request.expected_state).1 expected)
      ∙ elim (Bool-cases (is_terminal w.state)) [
        | inl over ↦ guard-err (not (is_terminal w.state)) error rest db (ap not over)
        | inr running ↦
            guard-step (not (is_terminal w.state)) error rest db (ap not running)
            ∙ ap (λ r. (relabel request.workflow_id w.state request.signal r >>= go) db) refused
      ]

  -- Inside a transaction, `apply_transition` raises WorkflowNotFoundError for an identifier without a
  -- row, WorkflowConflictError for a row in another state than the expected one, and
  -- InvalidTransitionError for a row in the expected state that no edge of the diagram leaves under
  -- the signal; and each time it leaves the database as it was.
  pub apply_transition-refused :
      (o : Option WorkflowRecord) (e : Exception)
      → db.in_transaction ≡ true
      → find workflow_key request.workflow_id db.workflows ≡ o
      → Refuses config request o e
      → apply_transition repo config request db ≡ (err e, db)
  unfolding apply_transition move_workflow
  apply_transition-refused o e active found missing =
      located-err request.workflow_id (move_workflow repo config request) db active found
  apply_transition-refused o e active found (conflict w other) =
      located-step request.workflow_id (move_workflow repo config request) db w active found
      ∙ guard-err (state_eq w.state request.expected_state) (workflow_conflict request.workflow_id)
          (raise_unless (not (is_terminal w.state))
              (invalid_transition request.workflow_id w.state request.signal)
            >> (relabel request.workflow_id w.state request.signal
                  (lookup w.state request.signal w.revision_count config.max_scenario_revisions)
                >>= λ d. carry_out repo config w request (with_reason request d)))
          db (state_eq-false w.state request.expected_state other)
  apply_transition-refused o e active found (no_edge w expected closed) =
      let (error, refused) =
        lookup-refused w.state request.signal w.revision_count config.max_scenario_revisions
          closed in
      located-step request.workflow_id (move_workflow repo config request) db w active found
      ∙ move-refused w error expected refused

-- Inside a transaction, `apply_approval_action` raises WorkflowNotFoundError for an identifier
-- without a row, WorkflowTerminalError for a row in a terminal state, and InvalidApprovalActionError
-- for a row in any other state but AWAITING_HUMAN_APPROVAL; and each time it leaves the database as
-- it was.
pub apply_approval_action-refused :
    (repo : Repo) (workflow_id : String) (action : ApprovalAction) (actor : Option String) (db : Db)
    (o : Option WorkflowRecord) (e : Exception)
    → db.in_transaction ≡ true
    → find workflow_key workflow_id db.workflows ≡ o
    → RefusesApproval workflow_id action o e
    → apply_approval_action repo workflow_id action actor db ≡ (err e, db)
unfolding apply_approval_action
apply_approval_action-refused repo workflow_id action actor db o e active found refuses =
    by_reason refuses found
  where
    k : WorkflowRecord → Action ApprovalActionResult
    k w =
        check_approval workflow_id action w.state
        >> approve_workflow repo workflow_id actor w (lookup_approval action)

    by_reason :
        {o : Option WorkflowRecord} {e : Exception}
        → RefusesApproval workflow_id action o e
        → find workflow_key workflow_id db.workflows ≡ o
        → apply_approval_action repo workflow_id action actor db ≡ (err e, db)
    by_reason unknown found = located-err workflow_id k db active found
    by_reason (finished w over) found =
        located-step workflow_id k db w active found
        ∙ ground (arith, over, terminal-other w.state over)
    by_reason (not_waiting w running other) found =
        located-step workflow_id k db w active found
        ∙ ground
            (arith, running, state_eq-false w.state WorkflowState.awaiting_human_approval other)
