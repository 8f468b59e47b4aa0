-- ===== src/Worker/Commit/Recorded.antt =====
-- What a commit that returns leaves on record: worker/loop.py.
use agentic_cartoon_demo.Base.{
  ◌≡◌, refl, ap, ◌∙◌, sym, inl, inr, Bool, true, Bool-cases, String, some, find, if◌then◌else◌,
  arith,
}
use agentic_cartoon_demo.Config.{WorkflowConfig}
use agentic_cartoon_demo.Exceptions.{ok, task_execution}
use agentic_cartoon_demo.Persistence.Types.{IdempotencyRecord}
use agentic_cartoon_demo.Persistence.Session.{Db, raise}
use agentic_cartoon_demo.Persistence.Session.Laws.{>>=-step}
use agentic_cartoon_demo.Persistence.WorkflowRepo.{Repo}
use agentic_cartoon_demo.Persistence.IdempotencyRepo.{idempotency_key, try_insert}
use agentic_cartoon_demo.Worker.Types.{TaskHandlerResult, DeliveryContext, IdempotencyClaimResult}
use agentic_cartoon_demo.Worker.Idempotency.{
  completion_of, claim_completion, claim_completion-Claimed,
}
use agentic_cartoon_demo.Worker.Commit.{
  commit_success_path, commit_completed, after_claim, claim_spec, is_success, is_retryable,
}
use agentic_cartoon_demo.Worker.Commit.Frame.{after_claim-Same}

-- The completion of a task is on record.
abbrev pub OnRecord : String → Db → Type 0
OnRecord key db = (r : IdempotencyRecord) × (completion_of key db ≡ some r)

-- A commit that returns was in a transaction.
commit-active :
    (repo : Repo) (config : WorkflowConfig) (ctx : DeliveryContext) (result : TaskHandlerResult)
    (db : Db) {u : Unit {0}} {after : Db}
    → commit_success_path repo config ctx result db ≡ (ok u, after)
    → db.in_transaction ≡ true
unfolding commit_success_path claim_completion try_insert
commit-active repo config ctx result db h = elim (Bool-cases db.in_transaction) [
  | inl active ↦ active
  | inr inactive ↦ elim (Bool-cases (is_success result.outcome)) [
    | inl succeeded ↦ absurd (ground (arith, succeeded, inactive, h))
    | inr failed ↦ absurd (ground (arith, failed, h))
  ]
]

pub commit-OnRecord :
    (repo : Repo) (config : WorkflowConfig) (ctx : DeliveryContext) (result : TaskHandlerResult)
    (db : Db) {u : Unit {0}} {after : Db}
    → commit_success_path repo config ctx result db ≡ (ok u, after)
    → OnRecord ctx.idempotency_key after
unfolding commit_success_path
commit-OnRecord repo config ctx result db {after = after} h =
    let active = commit-active repo config ctx result db h in
    elim (Bool-cases (is_success result.outcome)) [
      | inr failed ↦ absurd (ground (arith, failed, h))
      | inl succeeded ↦
          let claim = claim_completion-Claimed (claim_spec repo config ctx result) db active in
          let rest = λ (c : IdempotencyClaimResult). after_claim repo config ctx result c.phase in
          let chosen = λ (c : Bool).
            (if c
                then commit_completed repo config ctx result
                else raise (
                    task_execution ctx.delivery.message.workflow_id ctx.delivery.message.task_id
                      ctx.task_type (is_retryable result.outcome)))
              db in
          let ran : after_claim repo config ctx result claim.result.phase claim.after
              ≡ (ok tt, after) =
            sym (
              >>=-step (claim_completion (claim_spec repo config ctx result)) rest db claim.runs
                refl)
            ∙ sym (ap chosen succeeded)
            ∙ h in
          let there : completion_of ctx.idempotency_key claim.after ≡ some claim.result.claimed_by =
            elim claim.outcome [
              | inl (_, _, added, _) ↦ added
              | inr (_, found, quiet) ↦
                  ap (λ (d : Db). completion_of ctx.idempotency_key d) quiet ∙ found
            ] in
          let same = after_claim-Same repo config ctx result claim.result.phase claim.after in
          (
            claim.result.claimed_by,
            ap (find idempotency_key ctx.idempotency_key)
                  (sym (ap (λ p. p.1.idempotency) ran) ∙ same.1)
                ∙ there,
          )
    ]
