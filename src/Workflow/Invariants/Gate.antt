-- ===== src/Workflow/Invariants/Gate.antt =====
-- The moves in the audit log of workflow/engine.py, and the approvals among them.
use agentic_cartoon_demo.Base.{
  ℕ, ◌≡◌, refl, ap, ◌∙◌, sym, subst, subst₂, ◌⊎◌, inl, inr, false, Bool-cases, String, List, [],
  ◌∷◌, Option, none, some, All, Any, All-append, ◌=str=◌, str_iff, arith,
}
use agentic_cartoon_demo.Config.{TaskType, WorkflowConfig}
use agentic_cartoon_demo.Persistence.Types.{WorkflowRecord, WorkflowTransitionRecord}
use agentic_cartoon_demo.Persistence.Session.{Db}
use agentic_cartoon_demo.Persistence.WorkflowRepo.{Repo}
use agentic_cartoon_demo.Workflow.Types.{
  WorkflowState, ApprovalAction, TransitionSignal, state_eq, state_eq_iff, is_terminal,
}
use agentic_cartoon_demo.Workflow.TransitionTable.{lookup_approval}
use agentic_cartoon_demo.Workflow.TransitionTable.Graph.{Edge, Edge-is_transient, lookup-from}
use agentic_cartoon_demo.Workflow.Commands.{Command, run_all}
use agentic_cartoon_demo.Workflow.Effects.{
  Legal, edge, human, initiation, Effect, tables, add, move, preserved, redispatch,
}
use agentic_cartoon_demo.Workflow.Commands.Effects.{run_all-Effects}
use agentic_cartoon_demo.Workflow.Invariants.Rows.{row_of}
use agentic_cartoon_demo.Workflow.Invariants.Audit.{
  replay, IsAudited, Agrees, present, run_all-IsAudited,
}

-- The moves that there are: those of the diagram, a person's, and the first one.
pub data Allowed : WorkflowState → WorkflowState → Type 0 where
  by_signal :
      {count limit : ℕ} {signal : TransitionSignal} {s t : WorkflowState}
      → Edge count limit s signal t
      → Allowed s t
  by_person :
      (action : ApprovalAction)
      → Allowed WorkflowState.awaiting_human_approval (lookup_approval action).to_state
  by_start : Allowed WorkflowState.created WorkflowState.collecting

pub Legal-Allowed :
    (config : WorkflowConfig) (w : WorkflowRecord) {to : WorkflowState} {count : Option ℕ}
    {type : Option TaskType}
    → Legal config w to count type
    → Allowed w.state to
Legal-Allowed config w (edge signal d decided) =
    by_signal
      (lookup-from w.state signal w.revision_count config.max_scenario_revisions d decided).1
Legal-Allowed config w (human action waiting) =
    subst (λ s. Allowed s (lookup_approval action).to_state) (sym waiting) (by_person action)
Legal-Allowed config w (initiation new) =
    subst (λ s. Allowed s WorkflowState.collecting) (sym new) by_start

-- No move leaves a terminal state.
pub Allowed-is_terminal : {s t : WorkflowState} → Allowed s t → is_terminal s ≡ false
Allowed-is_terminal {s = s} (by_signal e) =
    let running = Edge-is_transient e in
    elim (Bool-cases (is_terminal s)) [ inl terminal ↦ absurd (ground arith) | inr other ↦ other ]
Allowed-is_terminal (by_person action) = refl
Allowed-is_terminal by_start = refl

Edge-unapproved :
    {count limit : ℕ} {s t : WorkflowState} {signal : TransitionSignal}
    → Edge count limit s signal t
    → state_eq t WorkflowState.approved ≡ false
unfolding state_eq
Edge-unapproved (Edge.revise h) = refl
Edge-unapproved _ = refl

-- APPROVED is entered from AWAITING_HUMAN_APPROVAL only.
Allowed-approved :
    {s t : WorkflowState}
    → Allowed s t
    → t ≡ WorkflowState.approved
    → s ≡ WorkflowState.awaiting_human_approval
Allowed-approved {t = t} (by_signal e) h =
    let is = (state_eq_iff t WorkflowState.approved).1 h in
    let is_not = Edge-unapproved e in absurd (ground arith)
Allowed-approved (by_person action) h = refl
Allowed-approved by_start h = cc

abbrev pub IsAllowed : WorkflowTransitionRecord → Type 0
IsAllowed t = Allowed t.from_state t.to_state

abbrev pub IsGuarded : Db → Type 0
IsGuarded db = All IsAllowed db.workflow_transitions

effect-IsGuarded :
    (config : WorkflowConfig) (db after : Db)
    → Effect config db after
    → IsGuarded db
    → IsGuarded after
effect-IsGuarded config db after (tables same) g =
    subst (All IsAllowed) (sym (ap (λ (d : Db). d.workflow_transitions) same)) g
effect-IsGuarded config db after (add w c) g =
    subst (All IsAllowed) (sym (ap (λ (d : Db). d.workflow_transitions) c.stored)) g
effect-IsGuarded config db after (move w w' t legal c) g =
    subst (All IsAllowed) (sym c.moved.transitions_) (
      All-append IsAllowed db.workflow_transitions (t ∷ []) g
        (subst₂ Allowed (sym c.audits.from_) (sym c.audits.to_) (Legal-Allowed config w legal), tt))
effect-IsGuarded config db after (redispatch workflow_id type d) g =
    subst (All IsAllowed) (sym d.transitions_) g

-- Calls of the engine log no move that the state diagram does not have: each is an edge of the
-- diagram, a person's action on a workflow in AWAITING_HUMAN_APPROVAL, or CREATED to COLLECTING.
pub run_all-IsGuarded :
    (repo : Repo) (config : WorkflowConfig) (cs : List Command) (db : Db)
    → IsGuarded db
    → IsGuarded (run_all repo config cs db)
run_all-IsGuarded repo config cs db =
    preserved config IsGuarded (effect-IsGuarded config) (run_all-Effects config repo cs db)

-- A move of the workflow to the state `s`.
abbrev pub Arrives : String → WorkflowState → WorkflowTransitionRecord → Type 0
Arrives id s t = (t.workflow_id ≡ id) × (t.to_state ≡ s)

-- A replay that ends in another state than it began in has a move to that state.
replay-Arrives :
    (id : String) (s : Option WorkflowState) (u : WorkflowState)
    (ts : List WorkflowTransitionRecord)
    → replay id s ts ≡ some u
    → (s ≡ some u) ⊎ Any (Arrives id u) ts
unfolding replay
replay-Arrives id s u [] h = inl h
replay-Arrives id none u (t ∷ ts) h = cc
replay-Arrives id (some s) u (t ∷ ts) h = elim (Bool-cases (t.workflow_id =str= id)) [
  | inl e ↦ elim (Bool-cases (state_eq s t.from_state)) [
    | inl f ↦ elim (replay-Arrives id (some t.to_state) u ts (ground (arith, e, f))) [
      | inl here ↦ inr (inl ((str_iff t.workflow_id id).0 e, cc))
      | inr later ↦ inr (inr later)
    ]
    | inr f ↦ elim (replay-Arrives id none u ts (ground (arith, e, f))) [
      | inl here ↦ cc
      | inr later ↦ inr (inr later)
    ]
  ]
  | inr e ↦ elim (replay-Arrives id (some s) u ts (ground (arith, e))) [
    | inl here ↦ inl here
    | inr later ↦ inr (inr later)
  ]
]

-- A person's approval of the workflow.
abbrev pub Approval : String → WorkflowTransitionRecord → Type 0
Approval id t =
    (t.workflow_id ≡ id)
    × (t.from_state ≡ WorkflowState.awaiting_human_approval)
    × (t.to_state ≡ WorkflowState.approved)

Arrives-Approval :
    (id : String) (ts : List WorkflowTransitionRecord)
    → All IsAllowed ts
    → Any (Arrives id WorkflowState.approved) ts
    → Any (Approval id) ts
Arrives-Approval id [] g a = absurd a
Arrives-Approval id (t ∷ ts) g (inl (same, to)) = inl (same, Allowed-approved g.0 to, to)
Arrives-Approval id (t ∷ ts) g (inr a) = inr (Arrives-Approval id ts g.1 a)

Agrees-Approval :
    (id : String) (o : Option WorkflowRecord) (ts : List WorkflowTransitionRecord)
    (w : WorkflowRecord)
    → Agrees id o ts
    → All IsAllowed ts
    → o ≡ some w
    → w.state ≡ WorkflowState.approved
    → Any (Approval id) ts
Agrees-Approval id none ts w a g e s = cc
Agrees-Approval id (some x) ts w (present r v) g e s =
    elim (replay-Arrives id (some WorkflowState.created) WorkflowState.approved ts
      (r ∙ ap some (cc (e, s)))) [ inl begun ↦ cc | inr arrives ↦ Arrives-Approval id ts g arrives ]

-- A workflow that is APPROVED after any calls of the engine, from a database whose log agrees with
-- its rows and has moves of the diagram only, has in its log a move from AWAITING_HUMAN_APPROVAL to
-- APPROVED, which is a person's action.
pub run_all-approved :
    (repo : Repo) (config : WorkflowConfig) (cs : List Command) (db : Db) (id : String)
    (w : WorkflowRecord)
    → IsAudited id db
    → IsGuarded db
    → row_of id (run_all repo config cs db) ≡ some w
    → w.state ≡ WorkflowState.approved
    → Any (Approval id) (run_all repo config cs db).workflow_transitions
run_all-approved repo config cs db id w audited guarded =
    Agrees-Approval id (row_of id (run_all repo config cs db))
      (run_all repo config cs db).workflow_transitions w
      (run_all-IsAudited config id repo cs db audited) (run_all-IsGuarded repo config cs db guarded)
