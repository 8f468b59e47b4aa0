-- ===== src/Workflow/Reconcile/Postgres.antt =====
-- workflow/reconcile.py with the repositories of persistence/repos, which lack the listing methods.
use agentic_cartoon_demo.Base.{
  ℕ, zero, suc, String, Option-cases, find, ◌≡◌, refl, ap, sym, subst, ◌∙◌, false, List, [], ◌∷◌,
  ◌++◌, Option, none, some, All, take, filter, inl, inr, Bool-cases, eqb,
}
use agentic_cartoon_demo.Config.{WorkflowConfig}
use agentic_cartoon_demo.Exceptions.{Exception, Result, ok, err}
use agentic_cartoon_demo.Persistence.Types.{WorkflowRecord, OutboxEntry}
use agentic_cartoon_demo.Persistence.Session.{Db, Action, pure, and_then, ◌>>=◌, now}
use agentic_cartoon_demo.Persistence.Session.Laws.{>>=-ok, pure-ok, >>=-step}
use agentic_cartoon_demo.Persistence.WorkflowRepo.{workflow_key, postgres, get_workflow}
use agentic_cartoon_demo.Persistence.OutboxRepo.{fetch_unpublished, by_age, is_pending}
use agentic_cartoon_demo.Persistence.Listings.{list_workflows_for_reconciliation}
use agentic_cartoon_demo.Workflow.Types.{WorkflowState}
use agentic_cartoon_demo.Workflow.OutboxBuilder.Effects.{Quiet}
use agentic_cartoon_demo.Workflow.Reconcile.{
  rp004, ReconciliationCandidate, Scanner, threshold_for, dedupe_from, dedupe_candidates,
}
use agentic_cartoon_demo.Workflow.Reconcile.Dedupe.{dedupe_from-All}
use agentic_cartoon_demo.Workflow.Reconcile.Collect.{
  updated_before, stuck_candidates, stuck_states, outbox_candidates, terminal_row,
  terminal_candidates, collect_rest, collect_candidates,
}
use agentic_cartoon_demo.Workflow.Reconcile.Reads.{collect_candidates-IsRead}
use agentic_cartoon_demo.Workflow.Reconcile.Repair.{
  Repair, ReconciliationReport, ReconciliationResult, left_alone, and_report, report, result,
  repair_pattern, repair_row, repair_candidate, repair_candidates, scan_and_repair,
}
use agentic_cartoon_demo.Workflow.Reconcile.Counts.{value_or}

-- A candidate that is only reported.
abbrev IsLeft : ReconciliationCandidate → Type 0
IsLeft c = c.pattern_id ≡ rp004

All-take {ℓ} : {A : Type ℓ} (P : A → Type 0) (n : ℕ) (xs : List A) → All P xs → All P (take n xs)
All-take P zero xs h = tt
All-take P (suc n) [] h = tt
All-take P (suc n) (x ∷ xs) h = (h.0, All-take P n xs h.1)

module _ (s : Scanner) where
  terminal-IsLeft :
      (es : List OutboxEntry) (seen : List String) (db : Db)
      → All IsLeft (terminal_candidates postgres s es seen db)
  unfolding terminal_candidates
  terminal-IsLeft [] seen db = tt
  terminal-IsLeft (e ∷ es) seen db = elim (Option-cases (terminal_row postgres s e seen db)) [
    | inl f ↦ rw (f, All) (terminal-IsLeft es seen db)
    | inr (row, f) ↦ rw (f, All) (refl, terminal-IsLeft es (e.workflow_id ∷ seen) db)
  ]

  stuck_states-none :
      (start : ℕ) (states : List WorkflowState) (batch_size : ℕ) (db : Db)
      (cs : List ReconciliationCandidate) (after : Db)
      → stuck_states postgres s start states batch_size db ≡ (ok cs, after)
      → cs ≡ []
  unfolding stuck_states list_workflows_for_reconciliation stuck_candidates
  stuck_states-none start [] batch_size db cs after h = sym (pure-ok [] db h).0
  stuck_states-none start (state ∷ states) batch_size db cs after h =
      let others = stuck_states postgres s start states batch_size in
      let (before, s₁, _, k₁) =
        >>=-ok (updated_before postgres s start (threshold_for s state))
          (λ before. others >>= λ rest. pure ([] ++ rest)) db h in
      let (rest, s₂, h₂, k₂) = >>=-ok others (λ rest. pure ([] ++ rest)) s₁ k₁ in
      sym (pure-ok rest s₂ k₂).0 ∙ stuck_states-none start states batch_size s₁ rest s₂ h₂

  collect_rest-IsLeft :
      (batch_size : ℕ) (db : Db)
      → All IsLeft (value_or [] (collect_rest postgres s batch_size [] db).0)
  unfolding collect_rest fetch_unpublished list_workflows_for_reconciliation outbox_candidates
      dedupe_candidates
  collect_rest-IsLeft batch_size db =
      let entries = take batch_size (by_age (filter is_pending db.outbox)) in
      let found = terminal_candidates postgres s entries [] db in
      All-take IsLeft batch_size (dedupe_from [] found)
        (dedupe_from-All IsLeft [] found tt (terminal-IsLeft entries [] db))

  collect_candidates-IsLeft :
      (batch_size : ℕ) (db : Db) (cs : List ReconciliationCandidate) (after : Db)
      → collect_candidates postgres s batch_size db ≡ (ok cs, after)
      → All IsLeft cs
  unfolding collect_candidates
  collect_candidates-IsLeft batch_size db cs after h =
      let rows = λ (start : ℕ). stuck_states postgres s start s.transient_states batch_size in
      let rest = collect_rest postgres s batch_size in
      let (start, s₁, _, k₁) = >>=-ok now (λ t. rows t >>= rest) db h in
      let (stuck, s₂, h₂, k₂) = >>=-ok (rows start) rest s₁ k₁ in
      let e = stuck_states-none start s.transient_states batch_size s₁ stuck s₂ h₂ in
      subst (λ p. All IsLeft (value_or [] p.0)) (ap (λ x. rest x s₂) (sym e) ∙ k₂)
        (collect_rest-IsLeft batch_size s₂)

  module _ (config : WorkflowConfig) where
    repair_row-left :
        (c : ReconciliationCandidate) (o : Option WorkflowRecord) (db : Db)
        → IsLeft c
        → (d : Option String) × (repair_row postgres config s c o db ≡ (ok (left_alone c d), db))
    unfolding repair_pattern
    repair_row-left c none db left = (some "version_mismatch_skip", refl)
    repair_row-left c (some fresh) db left =
        elim (Bool-cases (eqb fresh.state_version c.workflow.state_version)) [
          | inl e ↦ (
            some "terminal_unpublished_outbox",
            rw e (ap (λ p. repair_pattern postgres config s p c fresh db) left),
          )
          | inr e ↦ (some "version_mismatch_skip", rw e refl)
        ]

    repair_candidates-left :
        (cs : List ReconciliationCandidate) (db : Db)
        → All IsLeft cs
        → (rs : List ReconciliationReport) × (repair_candidates postgres config s cs db
            ≡ (ok (rs, 0), db))
    unfolding repair_candidates repair_candidate get_workflow
    repair_candidates-left [] db left = ([], refl)
    repair_candidates-left (c ∷ cs) db left =
        let found = find workflow_key c.workflow.workflow_id db.workflows in
        let (d, e) = repair_row-left c found db left.0 in
        let (rs, f) = repair_candidates-left cs db left.1 in
        let add = λ (first : Repair) (rest : List ReconciliationReport × ℕ).
          pure (and_report postgres config s first rest) in
        (
          report c false d ∷ rs,
          >>=-step (repair_row postgres config s c found)
              (λ first. repair_candidates postgres config s cs >>= add first) db e
              (>>=-step (repair_candidates postgres config s cs) (add (left_alone c d)) db f refl),
        )

-- Nothing was repaired, and no table has changed.
pub data IsIdle (db : Db) : Result ReconciliationResult → Db → Type 0 where
  returned :
      {r : ReconciliationResult} {after : Db}
      → r.repaired_count ≡ 0
      → Quiet db after
      → IsIdle db (ok r) after
  raised : {e : Exception} {after : Db} → Quiet db after → IsIdle db (err e) after

-- What `scan_and_repair` does with its candidates.
abbrev continue :
    WorkflowConfig → Scanner → List ReconciliationCandidate → Action ReconciliationResult
continue config s cs = repair_candidates postgres config s cs >>= λ r. pure (result cs r)

module _ (config : WorkflowConfig) (s : Scanner) where
  after_collect :
      (batch_size : ℕ) (db : Db) (r : Result (List ReconciliationCandidate)) (mid : Db)
      → collect_candidates postgres s batch_size db ≡ (r, mid)
      → Quiet db mid
      → IsIdle db (and_then r (continue config s) mid).0 (and_then r (continue config s) mid).1
  after_collect batch_size db (ok cs) mid h quiet =
      let (rs, e) =
        repair_candidates-left s config cs mid
          (collect_candidates-IsLeft s batch_size db cs mid h) in
      let ran =
        >>=-step (repair_candidates postgres config s cs) (λ r. pure (result cs r)) mid e refl in
      subst (λ p. IsIdle db p.0 p.1) (sym ran) (returned refl quiet)
  after_collect batch_size db (err e) mid h quiet = raised quiet

  -- With the repositories of PostgreSQL a scan repairs nothing: whatever is stored, it changes no
  -- table, and if it returns, its count of repaired workflows is 0.
  pub postgres-IsIdle :
      (batch_size : ℕ) (db : Db) {r : Result ReconciliationResult} {after : Db}
      → scan_and_repair postgres config s batch_size db ≡ (r, after)
      → IsIdle db r after
  unfolding scan_and_repair
  postgres-IsIdle batch_size db h =
      let run = collect_candidates postgres s batch_size db in
      subst (λ p. IsIdle db p.0 p.1) h
        (after_collect batch_size db run.0 run.1 refl
          (collect_candidates-IsRead postgres s batch_size db))
