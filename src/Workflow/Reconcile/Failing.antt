-- ===== src/Workflow/Reconcile/Failing.antt =====
-- workflow/reconcile.py: the row of a workflow under a scan.
use agentic_cartoon_demo.Base.{
  ℕ, ◌≡◌, refl, ap, ◌∙◌, sym, subst, subst₂, inl, inr, Bool, true, false, Bool-cases, String,
  Option, none, some, ◌=str=◌, str_iff,
}
use agentic_cartoon_demo.Config.{TaskType, WorkflowConfig}
use agentic_cartoon_demo.Exceptions.{Result, ok, err}
use agentic_cartoon_demo.Persistence.Types.{WorkflowRecord}
use agentic_cartoon_demo.Persistence.Session.{Db, Action, transaction}
use agentic_cartoon_demo.Persistence.Session.Laws.{transaction-ok, transaction-err}
use agentic_cartoon_demo.Persistence.Session.Keeps.{Keeps}
use agentic_cartoon_demo.Persistence.WorkflowRepo.{Repo}
use agentic_cartoon_demo.Workflow.Types.{WorkflowState, is_transient}
use agentic_cartoon_demo.Workflow.TransitionTable.Repairs.{lookup-IsTimeout}
use agentic_cartoon_demo.Workflow.OutboxBuilder.Effects.{Quiet}
use agentic_cartoon_demo.Workflow.Executor.{recreate_expected_outbox}
use agentic_cartoon_demo.Workflow.Engine.{apply_transition}
use agentic_cartoon_demo.Workflow.Engine.Outcomes.{apply_transition-Applied}
use agentic_cartoon_demo.Workflow.Invariants.Rows.{row_of, row-redispatched, row-moved, row-others}
use agentic_cartoon_demo.Workflow.Reconcile.{Scanner}
use agentic_cartoon_demo.Workflow.Reconcile.Effects.{
  run_guarded-ok, closed, recreate_expected_outbox-Dispatched,
}
use agentic_cartoon_demo.Workflow.Reconcile.Sweep.{scan_and_repair-Keeps}
use agentic_cartoon_demo.Workflow.Reconcile.Repair.{
  giving_up, run_guarded, in_transaction, in_transaction_or_new, recreate, give_up, scan_and_repair,
}

-- A row is as it was, or has failed in a transient state.
pub data IsSpared : Option WorkflowRecord → Option WorkflowRecord → Type 0 where
  same : {o o' : Option WorkflowRecord} → o' ≡ o → IsSpared o o'
  timed_out :
      {w w' : WorkflowRecord}
      → is_transient w.state ≡ true
      → w'.state ≡ WorkflowState.failed
      → w'.failure_reason ≡ some "stuck_state_timeout"
      → IsSpared (some w) (some w')

IsSpared-trans : {a b c : Option WorkflowRecord} → IsSpared a b → IsSpared b c → IsSpared a c
IsSpared-trans {c = c} (same e) q = subst (λ o. IsSpared o c) e q
IsSpared-trans {a = a} (timed_out t f r) q = after_timeout t f r q
  where
    after_timeout :
        {w w' : WorkflowRecord} {o : Option WorkflowRecord}
        → is_transient w.state ≡ true
        → w'.state ≡ WorkflowState.failed
        → w'.failure_reason ≡ some "stuck_state_timeout"
        → IsSpared (some w') o
        → IsSpared (some w) o
    after_timeout {w} t f r (same e) = subst (IsSpared (some w)) (sym e) (timed_out t f r)
    after_timeout t f r (timed_out _ f' r') = timed_out t f' r'

module _ (config : WorkflowConfig) (id : String) where
  abbrev Spares : Db → Db → Type 0
  Spares db after =
      db.in_transaction ≡ false
      → IsSpared (row_of id db) (row_of id after) × (after.in_transaction ≡ false)

  Spares-stays : (db : Db) → Spares db db
  Spares-stays db out = (same refl, out)

  Spares-compose : (a b c : Db) → Spares a b → Spares b c → Spares a c
  Spares-compose a b c h k out =
      let (first, mid) = h out in let (second, end) = k mid in (IsSpared-trans first second, end)

  Quiet-Spares : (a b : Db) → Quiet a b → Spares a b
  Quiet-Spares a b quiet out =
      (same (ap (row_of id) quiet), ap (λ (d : Db). d.in_transaction) quiet ∙ out)

  module _ (body : Action (Unit {0}))
      (spares : (start end : Db) (r : Unit {0})
        → body start ≡ (ok r, end)
        → IsSpared (row_of id start) (row_of id end)) where
    outcome :
        (db : Db) (r : Result (Unit {0})) (after : Db)
        → transaction body db ≡ (r, after)
        → IsSpared (row_of id db) (row_of id after)
    outcome db (ok a) after h =
        let (inner, ran, ended) = transaction-ok body db h in
        subst (IsSpared (row_of id db)) (sym (ap (row_of id) ended))
          (spares (record db { in_transaction = true }) inner a ran)
    outcome db (err e) after h = same (ap (row_of id) (transaction-err body db h))

    in_transaction-Spares : Keeps Spares (in_transaction body)
    unfolding in_transaction
    in_transaction-Spares db out =
        subst
          (λ (b : Bool).
            IsSpared (row_of id db) (row_of id (in_transaction_or_new b body db).1)
            × ((in_transaction_or_new b body db).1.in_transaction ≡ false))
          (sym out)
          (
            outcome db (transaction body db).0 (transaction body db).1 refl,
            closed body db (transaction body db).0 (transaction body db).1 out refl,
          )

  recreate-Spares :
      (fresh : WorkflowRecord) (type : Option TaskType) (attempt : ℕ)
      → Keeps Spares (recreate fresh type attempt)
  unfolding recreate
  recreate-Spares fresh none attempt = Spares-stays
  recreate-Spares fresh (some type) attempt =
      in_transaction-Spares (run_guarded (recreate_expected_outbox fresh type attempt))
        (λ start end r h.
          let (o, ran) = run_guarded-ok (recreate_expected_outbox fresh type attempt) start h in
          let (mid, quiet, d) = recreate_expected_outbox-Dispatched fresh type attempt start ran in
          same (row-redispatched mid end fresh.workflow_id (some type) id d ∙ ap (row_of id) quiet))

  module _ (repo : Repo) (s : Scanner) where
    give_up-Spares : (fresh : WorkflowRecord) → Keeps Spares (give_up repo config s fresh)
    unfolding give_up
    give_up-Spares fresh =
        in_transaction-Spares (run_guarded (apply_transition repo config (giving_up fresh)))
          (λ start end r h.
            let (_, ran) =
              run_guarded-ok (apply_transition repo config (giving_up fresh)) start h in
            let a = apply_transition-Applied repo config (giving_up fresh) start ran in
            let timeout =
              lookup-IsTimeout a.w.state a.w.revision_count config.max_scenario_revisions a.d
                a.decided in
            elim (Bool-cases (a.w.workflow_id =str= id)) [
              | inl e ↦
                  let here = (str_iff a.w.workflow_id id).0 e in
                  subst₂ IsSpared (sym a.change.moved.found ∙ ap (λ i. row_of i start) here)
                    (sym (row-moved start end a.d.outbox_task_type a.w a.w' a.t a.change.moved)
                      ∙ ap (λ i. row_of i end) here)
                    (timed_out timeout.transient (a.change.new_state ∙ timeout.failed_)
                      (a.change.new_reason ∙ timeout.reason_))
              | inr e ↦
                  same (row-others start end a.d.outbox_task_type a.w a.w' a.t a.change.moved id e)
            ])

    -- A scan outside a transaction, whether it returns or raises, leaves a workflow's row as it was,
    -- or has moved it from a transient state to FAILED with the reason stuck_state_timeout.
    pub scan_and_repair-IsSpared :
        (batch_size : ℕ) (db : Db)
        → db.in_transaction ≡ false
        → IsSpared (row_of id db) (row_of id (scan_and_repair repo config s batch_size db).1)
    scan_and_repair-IsSpared batch_size db out =
        (scan_and_repair-Keeps repo config s Spares Spares-stays Spares-compose Quiet-Spares
          recreate-Spares give_up-Spares batch_size db out).0
