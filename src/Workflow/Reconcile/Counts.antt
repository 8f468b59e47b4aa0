-- ===== src/Workflow/Reconcile/Counts.antt =====
-- workflow/reconcile.py: the numbers and the reports of a scan.
use agentic_cartoon_demo.Base.{
  ℕ, ◌+◌, ◌≤◌, ◌≡◌, refl, subst, inl, inr, Bool, Bool-cases, List, [], ◌∷◌, Option, none, some,
  length, length-take, count, map, if◌then◌else◌, ◌&&◌, eqb, is_some, get_or, arith, String,
}
use agentic_cartoon_demo.Config.{TaskType, WorkflowConfig}
use agentic_cartoon_demo.Exceptions.{Result, ok, err}
use agentic_cartoon_demo.Persistence.Types.{WorkflowRecord, TaskRecord}
use agentic_cartoon_demo.Persistence.Session.{Db, Action, pure, ◌>>=◌, ◌>>◌, now}
use agentic_cartoon_demo.Persistence.Session.Laws.{>>=-ok, pure-ok}
use agentic_cartoon_demo.Persistence.WorkflowRepo.{Repo, get_workflow}
use agentic_cartoon_demo.Persistence.OutboxRepo.{fetch_unpublished}
use agentic_cartoon_demo.Persistence.Listings.{list_tasks_for_workflow}
use agentic_cartoon_demo.Workflow.Reconcile.{
  RepairPattern, rp001, rp002, rp003, rp004, ReconciliationCandidate, Scanner, latest_expected,
  evaluate_rp003, is_stuck_retriable, current_attempt,
}
use agentic_cartoon_demo.Workflow.Reconcile.Collect.{stuck_states, collect_rest, collect_candidates}
use agentic_cartoon_demo.Workflow.Reconcile.Repair.{
  Repair, ReconciliationReport, ReconciliationResult, repaired, left_alone, and_report, result,
  recreate, give_up, judge, retry_or_give_up, repair_stuck, repair_pattern, repair_row,
  repair_candidate, repair_candidates, scan_and_repair,
}

abbrev pub value_or {ℓ} : {A : Type ℓ} → A → Result A → A
value_or d (ok a) = a
value_or d (err _) = d

abbrev pub is_repaired : ReconciliationReport → Bool
is_repaired r = r.repaired

-- A report is about its candidate, and counts if it says so.
pub record Reports (c : ReconciliationCandidate) (r : Repair) : Type 0 where
  pub id_ : r.0.workflow_id ≡ c.workflow.workflow_id
  pub action_ : r.0.repair_action ≡ c.pattern_id
  pub counted : r.1 ≡ (if r.0.repaired then 1 else 0)

-- Every result of the action is such a report.
abbrev Reporting : ReconciliationCandidate → Action Repair → Type 0
Reporting c m = (db : Db) (r : Repair) (after : Db) → m db ≡ (ok r, after) → Reports c r

said :
    (c : ReconciliationCandidate) (detail : Option String) (m : Action (Unit {0}))
    → Reporting c (m >> pure (repaired c detail))
said c detail m db r after h =
    let (_, s, _, k) = >>=-ok m (λ _. pure (repaired c detail)) db h in
    subst (Reports c) (pure-ok (repaired c detail) s k).0
      (record { id_ = refl; action_ = refl; counted = refl })

unsaid :
    (c : ReconciliationCandidate) (detail : Option String)
    → Reporting c (pure (left_alone c detail))
unsaid c detail db r after h =
    subst (Reports c) (pure-ok (left_alone c detail) db h).0
      (record { id_ = refl; action_ = refl; counted = refl })

module _ (repo : Repo) (config : WorkflowConfig) (s : Scanner) where
  retry_or_give_up-Reporting :
      (c : ReconciliationCandidate) (fresh : WorkflowRecord) (latest : Option TaskRecord)
      → Reporting c (retry_or_give_up repo config s c fresh latest)
  unfolding retry_or_give_up
  retry_or_give_up-Reporting c fresh latest =
      elim (Bool-cases (
        is_stuck_retriable latest (s.max_attempts (get_or c.expected_task_type TaskType.collect))
        && is_some c.expected_task_type)) [
          | inl e ↦ rw e (
              said c (some "outbox_retry")
                (recreate fresh c.expected_task_type (current_attempt latest + 1)))
          | inr e ↦ rw e (said c none (give_up repo config s fresh))
        ]

  judge-Reporting :
      (c : ReconciliationCandidate) (fresh : WorkflowRecord) (latest : Option TaskRecord) (t : ℕ)
      → Reporting c (judge repo config s c fresh latest t)
  judge-Reporting c fresh latest t = elim (Bool-cases (evaluate_rp003 s fresh latest t).is_stuck) [
    | inl e ↦ rw e (retry_or_give_up-Reporting c fresh latest)
    | inr e ↦ rw e (unsaid c none)
  ]

  repair_pattern-Reporting :
      (p : RepairPattern) (c : ReconciliationCandidate) (fresh : WorkflowRecord)
      → Reporting c (repair_pattern repo config s p c fresh)
  unfolding repair_pattern repair_stuck
  repair_pattern-Reporting rp001 c fresh = said c none (recreate fresh c.expected_task_type 1)
  repair_pattern-Reporting rp002 c fresh = unsaid c (some "outbox_pending_publish")
  repair_pattern-Reporting rp003 c fresh = λ db r after h.
      let latest =
        latest_expected (list_tasks_for_workflow repo fresh.workflow_id db) c.expected_task_type in
      judge-Reporting c fresh latest (db.environment.utcnow db.requests)
        (record db { requests = db.requests + 1 }) r after h
  repair_pattern-Reporting rp004 c fresh = unsaid c (some "terminal_unpublished_outbox")

  repair_row-Reporting :
      (c : ReconciliationCandidate) (o : Option WorkflowRecord)
      → Reporting c (repair_row repo config s c o)
  repair_row-Reporting c none = unsaid c (some "version_mismatch_skip")
  repair_row-Reporting c (some fresh) =
      elim (Bool-cases (eqb fresh.state_version c.workflow.state_version)) [
        | inl e ↦ rw e (repair_pattern-Reporting c.pattern_id c fresh)
        | inr e ↦ rw e (unsaid c (some "version_mismatch_skip"))
      ]

  repair_candidate-Reporting :
      (c : ReconciliationCandidate) → Reporting c (repair_candidate repo config s c)
  unfolding repair_candidate get_workflow
  repair_candidate-Reporting c db r after h =
      let (o, mid, _, k) =
        >>=-ok (get_workflow c.workflow.workflow_id) (repair_row repo config s c) db h in
      repair_row-Reporting c o mid r after k

  -- One report for each candidate, in their order.
  abbrev pub reported_ids : List ReconciliationReport → List String
  reported_ids = map (λ r. r.workflow_id)

  abbrev pub candidate_ids : List ReconciliationCandidate → List String
  candidate_ids = map (λ c. c.workflow.workflow_id)

  repair_candidates-counts :
      (cs : List ReconciliationCandidate) (db : Db) (r : List ReconciliationReport × ℕ) (after : Db)
      → repair_candidates repo config s cs db ≡ (ok r, after)
      → (reported_ids r.0 ≡ candidate_ids cs)
        × (r.1 ≡ count is_repaired r.0)
        × (length r.0 ≡ length cs)
  unfolding repair_candidates
  repair_candidates-counts [] db r after h =
      let (e, _) = pure-ok ([], 0) db h in
      subst (λ r. (reported_ids r.0 ≡ []) × (r.1 ≡ count is_repaired r.0) × (length r.0 ≡ 0)) e
        (refl, refl, refl)
  repair_candidates-counts (c ∷ cs) db r after h =
      let add = λ (first : Repair) (rest : List ReconciliationReport × ℕ).
        pure (and_report repo config s first rest) in
      let (first, mid, h₁, k₁) =
        >>=-ok (repair_candidate repo config s c)
          (λ first. repair_candidates repo config s cs >>= add first) db h in
      let (rest, end, h₂, k₂) = >>=-ok (repair_candidates repo config s cs) (add first) mid k₁ in
      let (e, _) = pure-ok (and_report repo config s first rest) end k₂ in
      let report = repair_candidate-Reporting c db first mid h₁ in
      let (ids, counted, long) = repair_candidates-counts cs mid rest end h₂ in
      subst
        (λ r.
          (reported_ids r.0 ≡ candidate_ids (c ∷ cs))
          × (r.1 ≡ count is_repaired r.0)
          × (length r.0 ≡ length (c ∷ cs)))
        e ((λ i. report.id_ i ∷ ids i), omega (arith, report.counted, counted), omega (arith, long))

  -- What the numbers of a scan say.
  pub record IsTallied (batch_size : ℕ) (r : ReconciliationResult) : Type 0 where
    pub bounded : r.scanned_count ≤ batch_size
    pub one_each : length r.reports ≡ r.scanned_count
    pub repaired_ : r.repaired_count ≡ count is_repaired r.reports

  collect_rest-bounded :
      (batch_size : ℕ) (stuck : List ReconciliationCandidate) (db : Db)
      → length (value_or [] (collect_rest repo s batch_size stuck db).0) ≤ batch_size
  unfolding collect_rest fetch_unpublished
  collect_rest-bounded batch_size stuck db = length-take batch_size _

  collected-bounded :
      (batch_size : ℕ) (db : Db) (cs : List ReconciliationCandidate) (after : Db)
      → collect_candidates repo s batch_size db ≡ (ok cs, after)
      → length cs ≤ batch_size
  unfolding collect_candidates collect_rest fetch_unpublished
  collected-bounded batch_size db cs after h =
      let rows = λ (start : ℕ). stuck_states repo s start s.transient_states batch_size in
      let (start, s₁, _, k₁) = >>=-ok now (λ t. rows t >>= collect_rest repo s batch_size) db h in
      let (stuck, s₂, _, k₂) = >>=-ok (rows start) (collect_rest repo s batch_size) s₁ k₁ in
      subst (λ p. length (value_or [] p.0) ≤ batch_size) k₂
        (collect_rest-bounded batch_size stuck s₂)

  -- A scan that returns has collected at most `batch_size` candidates, has one report for each, and
  -- counts as repaired those that are reported so.
  pub scan_and_repair-IsTallied :
      (batch_size : ℕ) (db : Db) {r : ReconciliationResult} {after : Db}
      → scan_and_repair repo config s batch_size db ≡ (ok r, after)
      → IsTallied batch_size r
  unfolding scan_and_repair
  scan_and_repair-IsTallied batch_size db h =
      let finish = λ (cs : List ReconciliationCandidate).
        repair_candidates repo config s cs >>= λ r. pure (result cs r) in
      let (cs, mid, h₁, k₁) = >>=-ok (collect_candidates repo s batch_size) finish db h in
      let (tallied, end, h₂, k₂) =
        >>=-ok (repair_candidates repo config s cs) (λ r. pure (result cs r)) mid k₁ in
      let (e, _) = pure-ok (result cs tallied) end k₂ in
      let (_, counted, long) = repair_candidates-counts cs mid tallied end h₂ in
      subst (IsTallied batch_size) e (record {
        bounded = collected-bounded batch_size db cs mid h₁;
        one_each = long;
        repaired_ = counted;
      })
