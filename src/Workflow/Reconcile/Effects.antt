-- ===== src/Workflow/Reconcile/Effects.antt =====
-- workflow/reconcile.py: what a scan does to the tables, whether it returns or raises.
use agentic_cartoon_demo.Base.{ℕ, ◌≡◌, refl, sym, subst, Bool, false, Option, none, some, arith}
use agentic_cartoon_demo.Config.{TaskType, WorkflowConfig}
use agentic_cartoon_demo.Exceptions.{Result, ok, err, runtime_error}
use agentic_cartoon_demo.Persistence.Types.{WorkflowRecord}
use agentic_cartoon_demo.Persistence.Session.{Db, Action, pure, ◌>>=◌, transaction}
use agentic_cartoon_demo.Persistence.Session.Laws.{
  >>=-ok, pure-ok, guard-ok, transaction-ok, transaction-err,
}
use agentic_cartoon_demo.Persistence.Session.Keeps.{Keeps}
use agentic_cartoon_demo.Persistence.WorkflowRepo.{Repo}
use agentic_cartoon_demo.Workflow.OutboxBuilder.{resolve_for_task, build, OutboxBuildResult}
use agentic_cartoon_demo.Workflow.OutboxBuilder.Effects.{
  Quiet, Quiet-trans, resolve_for_task-Quiet, build-Fits,
}
use agentic_cartoon_demo.Workflow.Executor.{recreate_expected_outbox, enqueue, is_generate}
use agentic_cartoon_demo.Workflow.Executor.Effects.{Dispatched, enqueue-Dispatched}
use agentic_cartoon_demo.Workflow.Engine.{apply_transition}
use agentic_cartoon_demo.Workflow.Engine.Outcomes.{apply_transition-Applied}
use agentic_cartoon_demo.Workflow.Effects.{
  Effects, tables, move, edge, redispatch, done, then_, both, transaction-Effects,
}
use agentic_cartoon_demo.Workflow.Reconcile.{Scanner}
use agentic_cartoon_demo.Workflow.Reconcile.Sweep.{scan_and_repair-Keeps}
use agentic_cartoon_demo.Workflow.Reconcile.Repair.{
  giving_up, run_guarded, in_transaction, in_transaction_or_new, recreate, give_up, scan_and_repair,
}

-- The task and the outbox entry of a repair are added together.
pub recreate_expected_outbox-Dispatched :
    (w : WorkflowRecord) (type : TaskType) (attempt : ℕ) (db : Db) {o : OutboxBuildResult}
    {after : Db}
    → recreate_expected_outbox w type attempt db ≡ (ok o, after)
    → (mid : Db) × Quiet db mid × Dispatched mid after w.workflow_id (some type)
unfolding recreate_expected_outbox
recreate_expected_outbox-Dispatched w type attempt db {after = after} h =
    let finish = λ (o : OutboxBuildResult). enqueue (some o) >>= λ _. pure o in
    let (n, s, h₁, k₁) =
      >>=-ok (resolve_for_task w.workflow_id type (is_generate type))
        (λ n. build w type n attempt >>= finish) db h in
    let (o, s', h₂, k₂) = >>=-ok (build w type n attempt) finish s k₁ in
    let (q, s'', h₃, k₃) = >>=-ok (enqueue (some o)) (λ _. pure o) s' k₂ in
    let (fits, quiet) = build-Fits w type n attempt s h₂ in
    (
      s',
      Quiet-trans db s s' (resolve_for_task-Quiet w.workflow_id type (is_generate type) db h₁)
          quiet,
      subst (λ d. Dispatched s' d w.workflow_id (some type)) (pure-ok o s'' k₃).1
          (enqueue-Dispatched w.workflow_id (some type) (some o) fits s' h₃),
    )

-- A guarded call that returns has run.
pub run_guarded-ok {ℓ} :
    {A : Type ℓ} (m : Action A) (db : Db) {r : Unit {0}} {after : Db}
    → run_guarded m db ≡ (ok r, after)
    → (a : A) × (m db ≡ (ok a, after))
run_guarded-ok m db {after = after} h =
    let (_, rest) = guard-ok db.in_transaction runtime_error (m >>= λ _. pure tt) db h in
    let (a, s, h₁, k₁) = >>=-ok m (λ _. pure tt) db rest in
    (a, subst (λ d. m db ≡ (ok a, d)) (pure-ok tt s k₁).1 h₁)

pub closed {ℓ} :
    {A : Type ℓ} (body : Action A) (db : Db) (r : Result A) (after : Db)
    → db.in_transaction ≡ false
    → transaction body db ≡ (r, after)
    → after.in_transaction ≡ false
closed body db (ok a) after out h = let (_, _, e) = transaction-ok body db h in cc
closed body db (err e) after out h = let e = transaction-err body db h in cc

module _ (config : WorkflowConfig) where
  -- Outside a transaction, a run has effects of the engine, and ends outside.
  abbrev pub Swept : Db → Db → Type 0
  Swept db after =
      db.in_transaction ≡ false → Effects config db after × (after.in_transaction ≡ false)

  Swept-stays : (db : Db) → Swept db db
  Swept-stays db out = (done, out)

  Swept-compose : (a b c : Db) → Swept a b → Swept b c → Swept a c
  Swept-compose a b c h k out =
      let (first, mid) = h out in let (second, end) = k mid in (both config first second, end)

  Quiet-Swept : (a b : Db) → Quiet a b → Swept a b
  Quiet-Swept a b quiet out =
      (then_ (tables (ground (arith, quiet))) done, ground (arith, quiet, out))

  in_transaction-Swept :
      (body : Action (Unit {0}))
      → ((start end : Db) (r : Unit {0}) → body start ≡ (ok r, end) → Effects config start end)
      → Keeps Swept (in_transaction body)
  unfolding in_transaction
  in_transaction-Swept body effects db out =
      subst
        (λ (b : Bool).
          Effects config db (in_transaction_or_new b body db).1
          × ((in_transaction_or_new b body db).1.in_transaction ≡ false))
        (sym out)
        (
          transaction-Effects config body db (λ begin r end h. effects begin end r h),
          closed body db (transaction body db).0 (transaction body db).1 out refl,
        )

  recreate-Swept :
      (fresh : WorkflowRecord) (type : Option TaskType) (attempt : ℕ)
      → Keeps Swept (recreate fresh type attempt)
  unfolding recreate
  recreate-Swept fresh none attempt = Swept-stays
  recreate-Swept fresh (some type) attempt =
      in_transaction-Swept (run_guarded (recreate_expected_outbox fresh type attempt))
        (λ start end r h.
          let (o, ran) = run_guarded-ok (recreate_expected_outbox fresh type attempt) start h in
          let (mid, quiet, d) = recreate_expected_outbox-Dispatched fresh type attempt start ran in
          then_ (tables (ground (arith, quiet))) (then_ (redispatch fresh.workflow_id type d) done))

  module _ (repo : Repo) (s : Scanner) where
    give_up-Swept : (fresh : WorkflowRecord) → Keeps Swept (give_up repo config s fresh)
    unfolding give_up
    give_up-Swept fresh =
        in_transaction-Swept (run_guarded (apply_transition repo config (giving_up fresh)))
          (λ start end r h.
            let (_, ran) =
              run_guarded-ok (apply_transition repo config (giving_up fresh)) start h in
            let a = apply_transition-Applied repo config (giving_up fresh) start ran in
            then_ (move a.w a.w' a.t (edge (giving_up fresh).signal a.d a.decided) a.change) done)

    pub scan_and_repair-Effects :
        (batch_size : ℕ) (db : Db)
        → db.in_transaction ≡ false
        → Effects config db (scan_and_repair repo config s batch_size db).1
    scan_and_repair-Effects batch_size db out =
        (scan_and_repair-Keeps repo config s Swept Swept-stays Swept-compose Quiet-Swept
          recreate-Swept give_up-Swept batch_size db out).0
