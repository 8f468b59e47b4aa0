-- ===== src/Workflow/Reconcile/Reads.antt =====
-- workflow/reconcile.py: collecting the candidates writes nothing.
use agentic_cartoon_demo.Base.{ℕ, refl, List, [], ◌∷◌, ◌++◌, Option, none, some}
use agentic_cartoon_demo.Persistence.Types.{WorkflowRecord}
use agentic_cartoon_demo.Persistence.Session.{Db, Action, pure, gets, ◌>>=◌, now}
use agentic_cartoon_demo.Persistence.Session.Keeps.{Keeps, >>=-Keeps}
use agentic_cartoon_demo.Persistence.WorkflowRepo.{Repo}
use agentic_cartoon_demo.Persistence.OutboxRepo.{fetch_unpublished}
use agentic_cartoon_demo.Persistence.Listings.{list_workflows_for_reconciliation}
use agentic_cartoon_demo.Workflow.Types.{WorkflowState, state_eq}
use agentic_cartoon_demo.Workflow.OutboxBuilder.Effects.{Quiet, Quiet-trans}
use agentic_cartoon_demo.Workflow.Reconcile.{ReconciliationCandidate, Scanner, threshold_for}
use agentic_cartoon_demo.Workflow.Reconcile.Collect.{
  stuck_candidate, stuck_candidates, updated_before, stuck_states, collect_rest, collect_candidates,
}

-- Only the environment is asked.
abbrev pub IsRead {ℓ} : {A : Type ℓ} → Action A → Type 0
IsRead m = Keeps Quiet m

pub >>=-IsRead {ℓ κ} :
    {A : Type ℓ} {B : Type κ} (m : Action A) (f : A → Action B)
    → IsRead m
    → ((a : A) → IsRead (f a))
    → IsRead (m >>= f)
>>=-IsRead = >>=-Keeps Quiet (λ db. refl) Quiet-trans

module _ (repo : Repo) (s : Scanner) where
  stuck_candidates-IsRead : (rows : List WorkflowRecord) → IsRead (stuck_candidates repo s rows)
  unfolding stuck_candidates
  stuck_candidates-IsRead [] = λ db. refl
  stuck_candidates-IsRead (row ∷ rows) =
      >>=-IsRead (stuck_candidate repo s row)
        (λ found. stuck_candidates repo s rows >>= λ rest. pure (found ++ rest)) (λ db. refl)
        (λ found.
          >>=-IsRead (stuck_candidates repo s rows) (λ rest. pure (found ++ rest))
            (stuck_candidates-IsRead rows) (λ rest db. refl))

  updated_before-IsRead : (start : ℕ) (o : Option ℕ) → IsRead (updated_before repo s start o)
  updated_before-IsRead start none db = refl
  updated_before-IsRead start (some t) db = refl

  pub stuck_states-IsRead :
      (start : ℕ) (states : List WorkflowState) (batch_size : ℕ)
      → IsRead (stuck_states repo s start states batch_size)
  unfolding stuck_states
  stuck_states-IsRead start [] batch_size = λ db. refl
  stuck_states-IsRead start (state ∷ states) batch_size =
      let rows = λ (before : ℕ) (db : Db).
        list_workflows_for_reconciliation repo (state_eq state) (some before) batch_size db in
      let others = λ (found : List ReconciliationCandidate).
        stuck_states repo s start states batch_size >>= λ rest. pure (found ++ rest) in
      >>=-IsRead (updated_before repo s start (threshold_for s state))
        (λ before. gets (rows before) >>= λ listed. stuck_candidates repo s listed >>= others)
        (updated_before-IsRead start (threshold_for s state))
        (λ before.
          >>=-IsRead (gets (rows before)) (λ listed. stuck_candidates repo s listed >>= others)
            (λ db. refl)
            (λ listed.
              >>=-IsRead (stuck_candidates repo s listed) others (stuck_candidates-IsRead listed)
                (λ found.
                  >>=-IsRead (stuck_states repo s start states batch_size)
                    (λ rest. pure (found ++ rest)) (stuck_states-IsRead start states batch_size)
                    (λ rest db. refl))))

  collect_rest-IsRead :
      (batch_size : ℕ) (stuck : List ReconciliationCandidate)
      → IsRead (collect_rest repo s batch_size stuck)
  unfolding collect_rest fetch_unpublished
  collect_rest-IsRead batch_size stuck db = refl

  -- Collecting the candidates changes no table, whether it returns or raises.
  pub collect_candidates-IsRead : (batch_size : ℕ) → IsRead (collect_candidates repo s batch_size)
  unfolding collect_candidates
  collect_candidates-IsRead batch_size =
      let rows = λ (start : ℕ). stuck_states repo s start s.transient_states batch_size in
      >>=-IsRead now (λ start. rows start >>= collect_rest repo s batch_size) (λ db. refl)
        (λ start.
          >>=-IsRead (rows start) (collect_rest repo s batch_size)
            (stuck_states-IsRead start s.transient_states batch_size)
            (collect_rest-IsRead batch_size))
