-- ===== src/Worker/Commit/Once.antt =====
-- What a first and a second commit of one task do: worker/loop.py.
use agentic_cartoon_demo.Base.{
  ◌≡◌, refl, ap, ◌∙◌, sym, subst, ◌≢◌, inl, inr, true, Bool-cases, none, some, text_or,
  Option-cases, find, if◌then◌else◌, ◌=str=◌, arith,
}
use agentic_cartoon_demo.Config.{WorkflowConfig}
use agentic_cartoon_demo.Exceptions.{Result, ok, err, task_execution}
use agentic_cartoon_demo.Persistence.Types.{WorkflowRecord, IdempotencyRecord}
use agentic_cartoon_demo.Persistence.Session.{Db, Action, raise, ◌>>=◌, transaction}
use agentic_cartoon_demo.Persistence.Session.Laws.{
  >>=-ok, >>=-step, transaction-ok, transaction-err,
}
use agentic_cartoon_demo.Persistence.WorkflowRepo.{Repo, update_task, task_key, workflow_key}
use agentic_cartoon_demo.Persistence.IdempotencyRepo.{idempotency_key}
use agentic_cartoon_demo.Workflow.OutboxBuilder.Effects.{Quiet}
use agentic_cartoon_demo.Workflow.Engine.{apply_transition}
use agentic_cartoon_demo.Workflow.Engine.Outcomes.{apply_transition-Applied}
use agentic_cartoon_demo.Workflow.Effects.{SameTables}
use agentic_cartoon_demo.Workflow.Invariants.Rows.{row_of}
use agentic_cartoon_demo.Worker.Types.{
  TaskHandlerResult, IdempotencyClaimResult, DeliveryContext, TaskMessage,
}
use agentic_cartoon_demo.Worker.StateGuard.{expected_state_for_task}
use agentic_cartoon_demo.Worker.Idempotency.{
  claim_completion, completion_of, claim_completion-Claimed,
}
use agentic_cartoon_demo.Worker.Commit.{
  bridge, bridge_fuel, winner_path, commit_success_path, commit_completed, after_claim, claim_spec,
  stage_request, signal_of, is_success, complete_named_task, is_retryable,
}
use agentic_cartoon_demo.Worker.Commit.Duplicate.{Left, duplicate-Quiet}
use agentic_cartoon_demo.Workflow.TransitionTable.Moves.{one-move, two-moves}
use agentic_cartoon_demo.Worker.Commit.Bridge.{Stepped, Applied-Stepped, Bridged, bridge-Bridged}

-- A task is marked as completed in the table of tasks only.
complete_named_task-ok :
    (repo : Repo) (config : WorkflowConfig) (message : TaskMessage) (db : Db) {u : Unit {0}}
    {after : Db}
    → complete_named_task repo config message db ≡ (ok u, after)
    → (after.workflows ≡ db.workflows) × (after.idempotency ≡ db.idempotency)
unfolding update_task
complete_named_task-ok repo config message db h = elim (Bool-cases (message.task_id =str= "")) [
  | inl e ↦ (ground (arith, e, h), ground (arith, e, h))
  | inr e ↦ elim (Option-cases (find task_key message.task_id db.tasks)) [
    | inl missing ↦ absurd (ground (arith, e, h, missing))
    | inr (task, there) ↦ (ground (arith, e, h, there), ground (arith, e, h, there))
  ]
]

-- What is on record after a task was committed.
pub record Committed (config : WorkflowConfig) (ctx : DeliveryContext) (after : Db) : Type 0 where
  pub completion : IdempotencyRecord
  pub recorded : completion_of ctx.idempotency_key after ≡ some completion
  pub w : WorkflowRecord
  pub row : row_of ctx.delivery.message.workflow_id after ≡ some w
  pub left : w.state ≢ expected_state_for_task ctx.task_type

module _ (repo : Repo) (config : WorkflowConfig) (ctx : DeliveryContext)
    (result : TaskHandlerResult) where
  left-expected :
      (db mid after : Db) (w : WorkflowRecord)
      → w.state ≡ expected_state_for_task ctx.task_type
      → (s : Stepped config ctx.delivery.message.workflow_id (signal_of result) db mid w)
      → (b : Bridged config ctx.delivery.message.workflow_id mid after s.w')
      → b.w'.state ≢ expected_state_for_task ctx.task_type
  left-expected db mid after w expected s b same = elim b.moved [
    | inl stayed ↦ one-move s.edge (sym stayed ∙ same ∙ sym expected)
    | inr edge ↦ two-moves s.edge edge (same ∙ sym expected)
  ]

  winner_path-Committed :
      (db : Db) (r : IdempotencyRecord) {u : Unit {0}} {after : Db}
      → completion_of ctx.idempotency_key db ≡ some r
      → winner_path repo config ctx result db ≡ (ok u, after)
      → Committed config ctx after
  unfolding winner_path
  winner_path-Committed db r {after = after} recorded h =
      let message = ctx.delivery.message in
      let request =
        stage_request repo config ctx result (text_or result.reason "stage completed") in
      let finish = complete_named_task repo config message in
      let (t, s₁, h₁, k₁) =
        >>=-ok (apply_transition repo config request)
          (λ t. bridge repo config bridge_fuel message t >>= λ _. finish) db h in
      let (b, s₂, h₂, k₂) = >>=-ok (bridge repo config bridge_fuel message t) (λ _. finish) s₁ k₁ in
      let (rows, completions) = complete_named_task-ok repo config message s₂ k₂ in
      let a = apply_transition-Applied repo config request db h₁ in
      let s = Applied-Stepped config request db s₁ t a.w a a.found in
      let bridged = bridge-Bridged repo config message 0 t s₁ s.w' s.row h₂ in
      record {
        completion = r;
        recorded =
            ap (find idempotency_key ctx.idempotency_key)
              (completions ∙ bridged.idempotency_ ∙ s.idempotency_)
            ∙ recorded;
        w = bridged.w';
        row = ap (find workflow_key message.workflow_id) rows ∙ bridged.row;
        left = left-expected db s₁ s₂ a.w a.expected s bridged;
      }

  -- A commit that returns, of a task whose completion was not on record, leaves it on record, and
  -- the workflow in another state than the one the task expects.
  pub commit-Committed :
      (db : Db) {u : Unit {0}} {after : Db}
      → db.in_transaction ≡ true
      → completion_of ctx.idempotency_key db ≡ none
      → commit_success_path repo config ctx result db ≡ (ok u, after)
      → Committed config ctx after
  unfolding commit_success_path
  commit-Committed db {u = u} {after = after} active missing h =
      elim (Bool-cases (is_success result.outcome)) [
        | inr failed ↦ absurd (ground (arith, failed, h))
        | inl succeeded ↦
            let claim = claim_completion-Claimed (claim_spec repo config ctx result) db active in
            let rest = λ (c : IdempotencyClaimResult). after_claim repo config ctx result c.phase in
            let run : commit_completed repo config ctx result db
                ≡ after_claim repo config ctx result claim.result.phase claim.after =
              >>=-step (claim_completion (claim_spec repo config ctx result)) rest db claim.runs
                refl in
            let entered : commit_completed repo config ctx result db ≡ (ok u, after) =
              sym (
                ap
                  (λ c.
                    (if c
                        then commit_completed repo config ctx result
                        else raise (
                            task_execution ctx.delivery.message.workflow_id
                              ctx.delivery.message.task_id ctx.task_type
                              (is_retryable result.outcome)))
                      db)
                  succeeded)
              ∙ h in
            elim claim.outcome [
              | inr (phase, there, quiet) ↦ cc
              | inl (phase, _, recorded, stored) ↦
                  winner_path-Committed claim.after claim.result.claimed_by recorded (
                    sym (ap (λ p. after_claim repo config ctx result p claim.after) phase)
                    ∙ sym run
                    ∙ entered)
            ]
      ]

-- A body that only makes requests, in a transaction of its own.
transaction-SameTables {ℓ} :
    {A : Type ℓ} (body : Action A) (db : Db)
    → Quiet (record db { in_transaction = true }) (body (record db { in_transaction = true })).1
    → SameTables db (transaction body db).1
transaction-SameTables {A = A} body db quiet =
    outcome (transaction body db).0 (transaction body db).1 refl
  where
    outcome : (r : Result A) (after : Db) → transaction body db ≡ (r, after) → SameTables db after
    outcome (ok a) after h =
        let (inner, ran, closed) = transaction-ok body db h in
        let quiet' =
          subst (Quiet (record db { in_transaction = true })) (ap (λ p. p.1) ran) quiet in
        cc (quiet', closed)
    outcome (err e) after h = let undone = transaction-err body db h in cc undone

-- Two deliveries of one task, committed one after the other, each in its transaction: when the first
-- commit returns and the task's completion was not on record before it, the second changes no table,
-- whatever its handler's result is, and whether it returns or raises.
pub commit-once :
    (repo : Repo) (config : WorkflowConfig) (first second : DeliveryContext)
    (result result' : TaskHandlerResult) (db : Db) {u : Unit {0}} {after : Db}
    → second.idempotency_key ≡ first.idempotency_key
    → second.task_type ≡ first.task_type
    → second.delivery.message.workflow_id ≡ first.delivery.message.workflow_id
    → completion_of first.idempotency_key db ≡ none
    → transaction (commit_success_path repo config first result) db ≡ (ok u, after)
    → SameTables after (transaction (commit_success_path repo config second result') after).1
commit-once repo config first second result result' db {after = after} same_key same_type
      same_workflow missing h =
    let (inner, ran, closed) = transaction-ok (commit_success_path repo config first result) db h in
    let c =
      commit-Committed repo config first result (record db { in_transaction = true }) refl missing
        ran in
    let open_ = record after { in_transaction = true } in
    let recorded =
      ap (λ (d : Db). completion_of second.idempotency_key d) closed
      ∙ ap (λ k. completion_of k inner) same_key
      ∙ c.recorded in
    let left : Left repo config second result' open_ refl = λ w found same.
      let there =
        ap (λ i. row_of i inner) (sym same_workflow)
        ∙ sym (ap (λ (d : Db). row_of second.delivery.message.workflow_id d) closed)
        ∙ found in
      let same_row : c.w ≡ w = cc (there, c.row) in
      c.left (
        ap (λ (x : WorkflowRecord). x.state) same_row
        ∙ same
        ∙ ap expected_state_for_task same_type) in
    transaction-SameTables (commit_success_path repo config second result') after
      (duplicate-Quiet repo config second result' open_ c.completion refl recorded left)
