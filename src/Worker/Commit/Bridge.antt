-- ===== src/Worker/Commit/Bridge.antt =====
-- The loop of the bridge transitions of worker/loop.py.
use agentic_cartoon_demo.Base.{
  ℕ, zero, suc, ◌≡◌, refl, ap, ◌∙◌, sym, subst, subst₂, find-key, ◌⊎◌, inl, inr, Bool, true, false,
  ◌||◌, Bool-cases, String, some, if◌then◌else◌, arith,
}
use agentic_cartoon_demo.Config.{WorkflowConfig}
use agentic_cartoon_demo.Exceptions.{ok}
use agentic_cartoon_demo.Persistence.Types.{WorkflowRecord}
use agentic_cartoon_demo.Persistence.Session.{Db, pure, ◌>>=◌}
use agentic_cartoon_demo.Persistence.Session.Laws.{>>=-ok, pure-ok}
use agentic_cartoon_demo.Persistence.WorkflowRepo.{Repo, workflow_key}
use agentic_cartoon_demo.Workflow.Types.{WorkflowState, TransitionSignal}
use agentic_cartoon_demo.Workflow.TransitionTable.Graph.{Edge, lookup-from}
use agentic_cartoon_demo.Workflow.Executor.{TransitionResult}
use agentic_cartoon_demo.Workflow.Engine.{TransitionRequest, apply_transition}
use agentic_cartoon_demo.Workflow.Engine.Outcomes.{Applied, apply_transition-Applied}
use agentic_cartoon_demo.Workflow.Invariants.Rows.{row_of, row-moved}
use agentic_cartoon_demo.Worker.Types.{TaskMessage}
use agentic_cartoon_demo.Worker.Commit.{
  bridge, bridge_request, needs_bridge, is_pause_after_enqueue, is_post_stage_bridge,
  is_active_execution,
}

-- The states that a bridge leaves.
abbrev is_bridged : WorkflowState → Bool
is_bridged s = is_pause_after_enqueue s || is_post_stage_bridge s

Edge-active :
    {count limit : ℕ} {s t : WorkflowState} {signal : TransitionSignal}
    → Edge count limit s signal t
    → signal ≡ TransitionSignal.stage_completed
    → is_bridged s ≡ true
    → is_active_execution t ≡ true
Edge-active Edge.collect e b = cc
Edge-active Edge.pick e b = refl
Edge-active Edge.select e b = cc
Edge-active Edge.unsuitable e b = cc
Edge-active Edge.begin e b = refl
Edge-active Edge.generate e b = cc
Edge-active Edge.submit e b = refl
Edge-active Edge.pass e b = cc
Edge-active (Edge.revise h) e b = cc
Edge-active (Edge.give_up h) e b = cc
Edge-active Edge.redo e b = refl
Edge-active Edge.pause e b = refl
Edge-active (Edge.break h) e b = cc
Edge-active (Edge.exhaust h) e b = cc
Edge-active (Edge.time_out h) e b = cc

-- An applied transition has moved the row that was found by an edge of the diagram.
pub record Stepped (config : WorkflowConfig) (id : String) (signal : TransitionSignal)
    (db after : Db) (w : WorkflowRecord) : Type 0 where
  pub w' : WorkflowRecord
  pub row : row_of id after ≡ some w'
  pub edge : Edge w.revision_count config.max_scenario_revisions w.state signal w'.state
  pub idempotency_ : after.idempotency ≡ db.idempotency

pub Applied-Stepped :
    (config : WorkflowConfig) (request : TransitionRequest) (db after : Db) (r : TransitionResult)
    (w : WorkflowRecord)
    → Applied config request db after r
    → row_of request.workflow_id db ≡ some w
    → Stepped config request.workflow_id request.signal db after w
Applied-Stepped config request db after r w a found =
    let same : a.w ≡ w = cc (a.found, found) in
    let key = find-key workflow_key request.workflow_id db.workflows a.w a.found in
    let limit = config.max_scenario_revisions in
    let e = (lookup-from a.w.state request.signal a.w.revision_count limit a.d a.decided).1 in
    record {
      w' = a.w';
      row =
          ap (λ i. row_of i after) (sym key)
          ∙ row-moved db after a.d.outbox_task_type a.w a.w' a.t a.change.moved;
      edge =
          subst₂ (λ (x : WorkflowRecord) s. Edge x.revision_count limit x.state request.signal s)
            same (sym a.change.new_state) e;
      idempotency_ = a.change.moved.idempotency_;
    }

-- Where the bridge leaves the workflow's row: as it was, or one move further.
pub record Bridged (config : WorkflowConfig) (id : String) (db after : Db) (w : WorkflowRecord)
    : Type 0 where
  pub w' : WorkflowRecord
  pub row : row_of id after ≡ some w'
  pub moved :
      (w'.state ≡ w.state)
      ⊎ Edge w.revision_count config.max_scenario_revisions w.state TransitionSignal.stage_completed
          w'.state
  pub idempotency_ : after.idempotency ≡ db.idempotency

module _ (repo : Repo) (config : WorkflowConfig) (message : TaskMessage) where
  -- After one turn the state is one in which the loop returns.
  turn :
      (current next : TransitionResult) (db after : Db)
      → needs_bridge current ≡ true
      → Applied config (bridge_request repo config message current.to_state) db after next
      → is_active_execution next.to_state ≡ true
  turn current next db after needed a =
      let limit = config.max_scenario_revisions in
      let edge =
        (lookup-from a.w.state TransitionSignal.stage_completed a.w.revision_count limit a.d
          a.decided).1 in
      let bridged : is_bridged a.w.state ≡ true =
        ap is_bridged a.expected ∙ from_needs current needed in
      ap (λ (r : TransitionResult). is_active_execution r.to_state) a.reported
      ∙ Edge-active edge refl bridged
    where
      from_needs :
          (current : TransitionResult)
          → needs_bridge current ≡ true
          → is_bridged current.to_state ≡ true
      from_needs current h = elim (Bool-cases (is_pause_after_enqueue current.to_state)) [
        | inl e ↦ ground (arith, e)
        | inr e ↦ ground (arith, e, h)
      ]

  bridge-turn :
      (n : ℕ) (current : TransitionResult) (db : Db) {b : Bool} {after : Db}
      → needs_bridge current ≡ true
      → bridge repo config (suc n) message current db ≡ (ok b, after)
      → (b ≡ true)
        × (next : TransitionResult) × Applied config
            (bridge_request repo config message current.to_state)
            db
            after
            next
  unfolding bridge
  bridge-turn n current db {b = b} {after = after} needed h =
      let apply =
        apply_transition repo config (bridge_request repo config message current.to_state) in
      let rest = λ (next : TransitionResult).
        if is_active_execution next.to_state
        then pure true
        else bridge repo config n message next in
      let h' : (apply >>= rest) db ≡ (ok b, after) =
        sym (ap (λ c. (if c then (apply >>= rest) else pure true) db) needed) ∙ h in
      let (next, mid, run, rest_) = >>=-ok apply rest db h' in
      let a =
        apply_transition-Applied repo config (bridge_request repo config message current.to_state)
          db run in
      let active = turn current next db mid needed a in
      let (done, ended) = pure-ok true mid (
        sym (ap (λ c. (if c then pure true else bridge repo config n message next) mid) active)
        ∙ rest_) in
      (
        sym done,
        next,
        subst (λ d. Applied config (bridge_request repo config message current.to_state) db d next)
            ended a,
      )

  bridge-none :
      (n : ℕ) (current : TransitionResult) (db : Db) {b : Bool} {after : Db}
      → needs_bridge current ≡ false
      → bridge repo config n message current db ≡ (ok b, after)
      → (b ≡ true) × (after ≡ db)
  unfolding bridge
  bridge-none zero current db none_ h = (ground (arith, none_, h), ground (arith, none_, h))
  bridge-none (suc n) current db none_ h =
      let apply =
        apply_transition repo config (bridge_request repo config message current.to_state) in
      let rest = λ (next : TransitionResult).
        if is_active_execution next.to_state
        then pure true
        else bridge repo config n message next in
      let (done, ended) =
        pure-ok true db
          (sym (ap (λ c. (if c then (apply >>= rest) else pure true) db) none_) ∙ h) in
      (sym done, sym ended)

  -- The loop that bridges the states after a stage needs one turn at most: given one, it never runs
  -- out of turns, however many more it has.
  pub bridge-ends :
      (n : ℕ) (current : TransitionResult) (db : Db) {b : Bool} {after : Db}
      → bridge repo config (suc n) message current db ≡ (ok b, after)
      → b ≡ true
  bridge-ends n current db h = elim (Bool-cases (needs_bridge current)) [
    | inl needed ↦ (bridge-turn n current db needed h).0
    | inr none_ ↦ (bridge-none (suc n) current db none_ h).0
  ]

  pub bridge-Bridged :
      (n : ℕ) (current : TransitionResult) (db : Db) (w : WorkflowRecord) {b : Bool} {after : Db}
      → row_of message.workflow_id db ≡ some w
      → bridge repo config (suc n) message current db ≡ (ok b, after)
      → Bridged config message.workflow_id db after w
  bridge-Bridged n current db w {after = after} found h = elim (Bool-cases (needs_bridge current)) [
    | inl needed ↦
        let (b_, next, a) = bridge-turn n current db needed h in
        let request = bridge_request repo config message current.to_state in
        let s = Applied-Stepped config request db after next w a found in
        record { w' = s.w'; row = s.row; moved = inr s.edge; idempotency_ = s.idempotency_ }
    | inr none_ ↦
        let (b_, same) = bridge-none (suc n) current db none_ h in
        record {
          w' = w;
          row = ap (λ d. row_of message.workflow_id d) same ∙ found;
          moved = inl refl;
          idempotency_ = ap (λ (d : Db). d.idempotency) same;
        }
  ]
