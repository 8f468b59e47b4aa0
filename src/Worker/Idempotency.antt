-- ===== src/Worker/Idempotency.antt =====
-- worker/idempotency.py: the check before a task is executed and the claim when it is committed.
use agentic_cartoon_demo.Base.{
  ◌+◌, ◌≡◌, refl, ap, ◌∙◌, ◌⊎◌, inl, inr, true, String, [], ◌∷◌, ◌++◌, Option, none, some,
  Option-cases, find, find-append, or_else, str_refl, arith,
}
use agentic_cartoon_demo.Exceptions.{ok}
use agentic_cartoon_demo.Persistence.Types.{IdempotencyRecord}
use agentic_cartoon_demo.Persistence.Session.{Db, Action, pure, ◌>>=◌}
use agentic_cartoon_demo.Persistence.IdempotencyRepo.{
  IdempotencyInsertSpec, IdempotencyInsertResult, IdempotencyOutcome, idempotency_key, try_insert,
  get_by_key,
}
use agentic_cartoon_demo.Workflow.OutboxBuilder.Effects.{Quiet}
use agentic_cartoon_demo.Worker.Types.{
  IdempotencyPhase, DuplicateResolution, IdempotencyCheckResult, IdempotencyClaimResult,
}

abbrev pub checked : String → Option IdempotencyRecord → IdempotencyCheckResult
checked key none = record {
  phase = IdempotencyPhase.not_started;
  idempotency_key = key;
  existing_record = none;
  duplicate_resolution = none;
}
checked key (some r) = record {
  phase = IdempotencyPhase.already_completed;
  idempotency_key = key;
  existing_record = some r;
  duplicate_resolution = some DuplicateResolution.reused_committed_result;
}

-- `check_before_execution`
unfoldable pub check_before_execution : String → Action IdempotencyCheckResult
unfolding get_by_key
check_before_execution key = do found ← get_by_key key; pure (checked key found)

abbrev claim_result : String → IdempotencyInsertResult → IdempotencyClaimResult
claim_result key result = elim result.outcome [
  | IdempotencyOutcome.inserted ↦ record {
    phase = IdempotencyPhase.claimed;
    idempotency_key = key;
    claimed_by = result.existing;
    duplicate_resolution = none;
  }
  | IdempotencyOutcome.duplicate ↦ record {
    phase = IdempotencyPhase.duplicate_rejected;
    idempotency_key = key;
    claimed_by = result.existing;
    duplicate_resolution = some DuplicateResolution.rejected_during_commit;
  }
]

-- `claim_completion`
unfoldable pub claim_completion : IdempotencyInsertSpec → Action IdempotencyClaimResult
unfolding try_insert
claim_completion spec = do result ← try_insert spec; pure (claim_result spec.idempotency_key result)

-- The record of a completed task.
abbrev pub completion_of : String → Db → Option IdempotencyRecord
completion_of key db = find idempotency_key key db.idempotency

-- What a claim inside a transaction does: it is granted when the key has no record, and then adds
-- the record; it is refused when the key has one, and then changes nothing.
pub record Claimed (db : Db) (spec : IdempotencyInsertSpec) : Type 0 where
  pub result : IdempotencyClaimResult
  pub after : Db
  pub runs : claim_completion spec db ≡ (ok result, after)
  pub same_key : result.idempotency_key ≡ spec.idempotency_key
  pub outcome :
      ((result.phase ≡ IdempotencyPhase.claimed)
        × (completion_of spec.idempotency_key db ≡ none)
        × (completion_of spec.idempotency_key after ≡ some result.claimed_by)
        × (after ≡ record db { idempotency = after.idempotency; requests = after.requests }))
      ⊎ ((result.phase ≡ IdempotencyPhase.duplicate_rejected)
          × (completion_of spec.idempotency_key db ≡ some result.claimed_by)
          × Quiet db after)

-- A claim inside a transaction returns. It is granted exactly when the key has no completion record,
-- which it then adds; else it names the record that is there, and changes no table.
pub claim_completion-Claimed :
    (spec : IdempotencyInsertSpec) (db : Db) → db.in_transaction ≡ true → Claimed db spec
unfolding claim_completion find
claim_completion-Claimed spec db active =
    elim (Option-cases (completion_of spec.idempotency_key db)) [
      | inl new ↦
          let row : IdempotencyRecord = record {
            idempotency_key = spec.idempotency_key;
            workflow_id = spec.workflow_id;
            task_id = spec.task_id;
            completed_at = db.environment.utcnow db.requests;
            result_artifact_id = spec.result_artifact_id;
          } in
          let there =
            find-append idempotency_key spec.idempotency_key db.idempotency (row ∷ [])
            ∙ ap (λ o. or_else o (find idempotency_key spec.idempotency_key (row ∷ []))) new in
          record {
            result =
                claim_result spec.idempotency_key
                  (record { outcome = IdempotencyOutcome.inserted; existing = row });
            after = record db {
              idempotency = db.idempotency ++ row ∷ [];
              requests = db.requests + 1;
            };
            runs = ground (arith, active, new);
            same_key = refl;
            outcome = inl (refl, new, ground (arith, there, str_refl spec.idempotency_key), refl);
          }
      | inr (r, there) ↦ record {
        result =
            claim_result spec.idempotency_key
              (record { outcome = IdempotencyOutcome.duplicate; existing = r });
        after = record db { requests = db.requests + 1 };
        runs = ground (arith, active, there);
        same_key = refl;
        outcome = inr (refl, there, refl);
      }
    ]
