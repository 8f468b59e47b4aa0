-- ===== src/Workflow/Invariants/Audit.antt =====
-- The audit log of workflow/engine.py: workflow_transitions, replayed, against the workflow's row.
use agentic_cartoon_demo.Base.{
  ◌+◌, ◌≡◌, refl, ap, ◌∙◌, sym, subst, subst₂, inl, inr, Bool, false, Bool-cases, String, List, [],
  ◌∷◌, ◌++◌, Option, none, some, count, count-append, ◌=str=◌, str_iff, str_refl, if◌then◌else◌,
  arith,
}
use agentic_cartoon_demo.Config.{WorkflowConfig}
use agentic_cartoon_demo.Persistence.Types.{WorkflowRecord, WorkflowTransitionRecord}
use agentic_cartoon_demo.Persistence.Session.{Db}
use agentic_cartoon_demo.Persistence.WorkflowRepo.{Repo}
use agentic_cartoon_demo.Workflow.Types.{WorkflowState, state_eq, state_eq_iff}
use agentic_cartoon_demo.Workflow.Commands.{Command, run_all}
use agentic_cartoon_demo.Workflow.Effects.{Effect, tables, add, move, preserved, redispatch}
use agentic_cartoon_demo.Workflow.Commands.Effects.{run_all-Effects}
use agentic_cartoon_demo.Workflow.Invariants.Rows.{
  row_of, row-redispatched, row-moved, row-others, row-created, row-kept,
}

-- The state after a log, from the state before it; none when a transition of the workflow does not
-- start where the one before it ended.
unfoldable pub replay :
    String → Option WorkflowState → List WorkflowTransitionRecord → Option WorkflowState
replay id s [] = s
replay id none (t ∷ ts) = none
replay id (some s) (t ∷ ts) =
    if t.workflow_id =str= id
    then replay id (if state_eq s t.from_state then some t.to_state else none) ts
    else replay id (some s) ts

replay-none : (id : String) (ts : List WorkflowTransitionRecord) → replay id none ts ≡ none
unfolding replay
replay-none id [] = refl
replay-none id (t ∷ ts) = refl

pub replay-append :
    (id : String) (s : Option WorkflowState) (ts us : List WorkflowTransitionRecord)
    → replay id s (ts ++ us) ≡ replay id (replay id s ts) us
unfolding replay
replay-append id s [] us = refl
replay-append id none (t ∷ ts) us = sym (replay-none id us)
replay-append id (some s) (t ∷ ts) us = elim (Bool-cases (t.workflow_id =str= id)) [
  | inl e ↦
      rw e (replay-append id (if state_eq s t.from_state then some t.to_state else none) ts us)
  | inr e ↦ rw e (replay-append id (some s) ts us)
]

abbrev pub is_of : String → WorkflowTransitionRecord → Bool
is_of id t = t.workflow_id =str= id

-- The row and the log of one workflow agree.
pub data Agrees (id : String) : Option WorkflowRecord → List WorkflowTransitionRecord → Type 0 where
  absent : {ts : List WorkflowTransitionRecord} → count (is_of id) ts ≡ 0 → Agrees id none ts
  present :
      {w : WorkflowRecord} {ts : List WorkflowTransitionRecord}
      → replay id (some WorkflowState.created) ts ≡ some w.state
      → w.state_version ≡ 1 + count (is_of id) ts
      → Agrees id (some w) ts

abbrev pub IsAudited : String → Db → Type 0
IsAudited id db = Agrees id (row_of id db) db.workflow_transitions

-- A log without the workflow leaves its state as it was.
replay_without :
    (id : String) (s : Option WorkflowState) (ts : List WorkflowTransitionRecord)
    → count (is_of id) ts ≡ 0
    → replay id s ts ≡ s
unfolding replay
replay_without id s [] h = refl
replay_without id none (t ∷ ts) h = refl
replay_without id (some s) (t ∷ ts) h = elim (Bool-cases (t.workflow_id =str= id)) [
  | inl e ↦ absurd (ground (arith, e))
  | inr e ↦ rw e (replay_without id (some s) ts (ground (arith, e)))
]

Agrees-created :
    (id : String) (w : WorkflowRecord) (o : Option WorkflowRecord)
    (ts : List WorkflowTransitionRecord)
    → o ≡ none
    → w.state ≡ WorkflowState.created
    → w.state_version ≡ 1
    → Agrees id o ts
    → Agrees id (some w) ts
Agrees-created id w none ts e s v (absent h) =
    present (replay_without id (some WorkflowState.created) ts h ∙ ap some (sym s))
      (omega (arith, h, v))
Agrees-created id w (some x) ts e s v h = cc

Agrees-moved :
    (id : String) (w w' : WorkflowRecord) (t : WorkflowTransitionRecord)
    (ts : List WorkflowTransitionRecord)
    → t.workflow_id ≡ id
    → t.from_state ≡ w.state
    → t.to_state ≡ w'.state
    → w'.state_version ≡ w.state_version + 1
    → Agrees id (some w) ts
    → Agrees id (some w') (ts ++ t ∷ [])
unfolding replay
Agrees-moved id w w' t ts same from to version (present r v) =
    present
      (replay-append id (some WorkflowState.created) ts (t ∷ [])
        ∙ ap (λ s. replay id s (t ∷ [])) r
        ∙ ground
            (arith, same, from, to, str_refl id, (state_eq_iff w.state t.from_state).1 (sym from)))
      (ground (arith, count-append (is_of id) ts (t ∷ []), v, version, same, str_refl id))

Agrees-other :
    (id : String) (o : Option WorkflowRecord) (t : WorkflowTransitionRecord)
    (ts : List WorkflowTransitionRecord)
    → (t.workflow_id =str= id) ≡ false
    → Agrees id o ts
    → Agrees id o (ts ++ t ∷ [])
unfolding replay
Agrees-other id none t ts other (absent h) =
    absent (ground (arith, count-append (is_of id) ts (t ∷ []), h, other))
Agrees-other id (some w) t ts other (present r v) =
    present
      (replay-append id (some WorkflowState.created) ts (t ∷ [])
        ∙ ap (λ s. replay id s (t ∷ [])) r
        ∙ ground (arith, other))
      (ground (arith, count-append (is_of id) ts (t ∷ []), v, other))

module _ (config : WorkflowConfig) (id : String) where
  effect-IsAudited : (db after : Db) → Effect config db after → IsAudited id db → IsAudited id after
  effect-IsAudited db after (tables same) a =
      subst (Agrees id (row_of id after)) (sym (ap (λ (d : Db). d.workflow_transitions) same)) (
        subst (λ o. Agrees id o db.workflow_transitions) (sym (ap (λ (d : Db). row_of id d) same))
          a)
  effect-IsAudited db after (add w c) a = elim (Bool-cases (w.workflow_id =str= id)) [
    | inl e ↦
        let same = (str_iff w.workflow_id id).0 e in
        subst₂ (Agrees id)
          (sym (row-created db after w.workflow_id WorkflowState.created w c)
            ∙ ap (λ i. row_of i after) same)
          (sym (ap (λ (d : Db). d.workflow_transitions) c.stored))
          (Agrees-created id w (row_of id db) db.workflow_transitions
            (ap (λ i. row_of i db) (sym same) ∙ c.fresh) c.initial c.first_version a)
    | inr e ↦
        subst₂ (Agrees id) (sym (row-kept db after w.workflow_id WorkflowState.created w c id e))
          (sym (ap (λ (d : Db). d.workflow_transitions) c.stored)) a
  ]
  effect-IsAudited db after (move w w' t {type = type} legal c) a =
      elim (Bool-cases (w.workflow_id =str= id)) [
        | inl e ↦
            let same = (str_iff w.workflow_id id).0 e in
            subst₂ (Agrees id)
              (sym (row-moved db after type w w' t c.moved) ∙ ap (λ i. row_of i after) same)
              (sym c.moved.transitions_)
              (Agrees-moved id w w' t db.workflow_transitions (c.audits.workflow_id_ ∙ same)
                c.audits.from_ (c.audits.to_ ∙ sym c.new_state) c.moved.new_version
                (subst (λ o. Agrees id o db.workflow_transitions)
                  (ap (λ i. row_of i db) (sym same) ∙ c.moved.found) a))
        | inr e ↦
            subst₂ (Agrees id) (sym (row-others db after type w w' t c.moved id e))
              (sym c.moved.transitions_)
              (Agrees-other id (row_of id db) t db.workflow_transitions
                (ap (λ i. i =str= id) c.audits.workflow_id_ ∙ e) a)
      ]
  effect-IsAudited db after (redispatch workflow_id type d) a =
      subst₂ (Agrees id) (sym (row-redispatched db after workflow_id (some type) id d))
        (sym d.transitions_) a

  -- Calls of the engine, in any order and with any outcome, keep the agreement of a workflow's row
  -- with the log: its transitions, replayed from CREATED, each start where the one before ended, the
  -- last one ends in the row's state, and the row's version is one more than their number; a
  -- workflow without a row has none.
  pub run_all-IsAudited :
      (repo : Repo) (cs : List Command) (db : Db)
      → IsAudited id db
      → IsAudited id (run_all repo config cs db)
  run_all-IsAudited repo cs db =
      preserved config (IsAudited id) effect-IsAudited (run_all-Effects config repo cs db)
