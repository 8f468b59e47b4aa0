-- ===== src/Workflow/Reconcile/Sweep.antt =====
-- workflow/reconcile.py: what every repair keeps, a scan keeps, whether it returns or raises.
use agentic_cartoon_demo.Base.{
  ℕ, ◌+◌, refl, inl, inr, Bool-cases, List, [], ◌∷◌, Option, none, some, ◌&&◌, eqb, is_some, get_or,
}
use agentic_cartoon_demo.Config.{TaskType, WorkflowConfig}
use agentic_cartoon_demo.Persistence.Types.{WorkflowRecord, TaskRecord}
use agentic_cartoon_demo.Persistence.Session.{Db, Action, pure, gets, ◌>>=◌, ◌>>◌, now}
use agentic_cartoon_demo.Persistence.Session.Keeps.{Keeps, >>=-Keeps}
use agentic_cartoon_demo.Persistence.WorkflowRepo.{Repo, get_workflow}
use agentic_cartoon_demo.Persistence.Listings.{list_tasks_for_workflow}
use agentic_cartoon_demo.Workflow.OutboxBuilder.Effects.{Quiet}
use agentic_cartoon_demo.Workflow.Reconcile.{
  RepairPattern, rp001, rp002, rp003, rp004, ReconciliationCandidate, Scanner, latest_expected,
  evaluate_rp003, is_stuck_retriable, current_attempt,
}
use agentic_cartoon_demo.Workflow.Reconcile.Collect.{collect_candidates}
use agentic_cartoon_demo.Workflow.Reconcile.Reads.{IsRead, collect_candidates-IsRead}
use agentic_cartoon_demo.Workflow.Reconcile.Repair.{
  Repair, ReconciliationReport, judge, result, repaired, and_report, recreate, give_up,
  retry_or_give_up, repair_stuck, repair_pattern, repair_row, repair_candidate, repair_candidates,
  scan_and_repair,
}

module _ (repo : Repo) (config : WorkflowConfig) (s : Scanner) (R : Db → Db → Type 0)
    (stays : (db : Db) → R db db) (compose : (a b c : Db) → R a b → R b c → R a c)
    (quietly : (a b : Db) → Quiet a b → R a b)
    (again : (fresh : WorkflowRecord) (type : Option TaskType) (attempt : ℕ)
      → Keeps R (recreate fresh type attempt))
    (over : (fresh : WorkflowRecord) → Keeps R (give_up repo config s fresh)) where
  reads {ℓ} : {A : Type ℓ} (m : Action A) → IsRead m → Keeps R m
  reads m h db = quietly db (m db).1 (h db)

  >>=-R {ℓ κ} :
      {A : Type ℓ} {B : Type κ} (m : Action A) (f : A → Action B)
      → Keeps R m
      → ((a : A) → Keeps R (f a))
      → Keeps R (m >>= f)
  >>=-R = >>=-Keeps R stays compose

  -- What follows a repair only reports it.
  reported : (m : Action (Unit {0})) (r : Repair) → Keeps R m → Keeps R (m >> pure r)
  reported m r h = >>=-R m (λ _. pure r) h (λ _. stays)

  retry_or_give_up-Keeps :
      (c : ReconciliationCandidate) (fresh : WorkflowRecord) (latest : Option TaskRecord)
      → Keeps R (retry_or_give_up repo config s c fresh latest)
  unfolding retry_or_give_up
  retry_or_give_up-Keeps c fresh latest =
      let once_more =
        reported (recreate fresh c.expected_task_type (current_attempt latest + 1))
          (repaired c (some "outbox_retry"))
          (again fresh c.expected_task_type (current_attempt latest + 1)) in
      let ended = reported (give_up repo config s fresh) (repaired c none) (over fresh) in
      elim (Bool-cases (
        is_stuck_retriable latest (s.max_attempts (get_or c.expected_task_type TaskType.collect))
        && is_some c.expected_task_type)) [ inl e ↦ rw e once_more | inr e ↦ rw e ended ]

  repair_stuck-Keeps :
      (c : ReconciliationCandidate) (fresh : WorkflowRecord)
      → Keeps R (repair_stuck repo config s c fresh)
  unfolding repair_stuck
  repair_stuck-Keeps c fresh =
      let tasks = λ (db : Db).
        latest_expected (list_tasks_for_workflow repo fresh.workflow_id db) c.expected_task_type in
      let judged = judge repo config s c fresh in
      >>=-R (gets tasks) (λ latest. now >>= judged latest) stays
        (λ latest. >>=-R now (judged latest) (reads now (λ db. refl)) (λ t.
          elim (Bool-cases (evaluate_rp003 s fresh latest t).is_stuck) [
            | inl e ↦ rw e (retry_or_give_up-Keeps c fresh latest)
            | inr e ↦ rw e stays
          ]))

  repair_pattern-Keeps :
      (p : RepairPattern) (c : ReconciliationCandidate) (fresh : WorkflowRecord)
      → Keeps R (repair_pattern repo config s p c fresh)
  unfolding repair_pattern
  repair_pattern-Keeps rp001 c fresh =
      reported (recreate fresh c.expected_task_type 1) (repaired c none)
        (again fresh c.expected_task_type 1)
  repair_pattern-Keeps rp002 c fresh = stays
  repair_pattern-Keeps rp003 c fresh = repair_stuck-Keeps c fresh
  repair_pattern-Keeps rp004 c fresh = stays

  repair_row-Keeps :
      (c : ReconciliationCandidate) (o : Option WorkflowRecord)
      → Keeps R (repair_row repo config s c o)
  repair_row-Keeps c none = stays
  repair_row-Keeps c (some fresh) =
      elim (Bool-cases (eqb fresh.state_version c.workflow.state_version)) [
        | inl e ↦ rw e (repair_pattern-Keeps c.pattern_id c fresh)
        | inr e ↦ rw e stays
      ]

  repair_candidate-Keeps :
      (c : ReconciliationCandidate) → Keeps R (repair_candidate repo config s c)
  unfolding repair_candidate get_workflow
  repair_candidate-Keeps c =
      >>=-R (get_workflow c.workflow.workflow_id) (repair_row repo config s c) stays
        (repair_row-Keeps c)

  repair_candidates-Keeps :
      (cs : List ReconciliationCandidate) → Keeps R (repair_candidates repo config s cs)
  unfolding repair_candidates
  repair_candidates-Keeps [] = stays
  repair_candidates-Keeps (c ∷ cs) =
      let add = λ (first : Repair) (rest : List ReconciliationReport × ℕ).
        pure (and_report repo config s first rest) in
      >>=-R (repair_candidate repo config s c)
        (λ first. repair_candidates repo config s cs >>= add first) (repair_candidate-Keeps c)
        (λ first.
          >>=-R (repair_candidates repo config s cs) (add first) (repair_candidates-Keeps cs)
            (λ rest. stays))

  pub scan_and_repair-Keeps : (batch_size : ℕ) → Keeps R (scan_and_repair repo config s batch_size)
  unfolding scan_and_repair
  scan_and_repair-Keeps batch_size =
      >>=-R (collect_candidates repo s batch_size)
        (λ cs. repair_candidates repo config s cs >>= λ r. pure (result cs r))
        (reads (collect_candidates repo s batch_size) (collect_candidates-IsRead repo s batch_size))
        (λ cs.
          >>=-R (repair_candidates repo config s cs) (λ r. pure (result cs r))
            (repair_candidates-Keeps cs) (λ r. stays))
