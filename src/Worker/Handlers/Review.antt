-- ===== src/Worker/Handlers/Review.antt =====
-- worker/handlers/review_scenario.py: the version of the artifact that a review stores.
use agentic_cartoon_demo.Base.{
  find, is_some, ℕ, ◌≡◌, refl, ap, ◌∙◌, sym, subst, inl, inr, true, false, Bool-cases, String,
  Option, none, some, Any, arith,
}
use agentic_cartoon_demo.Exceptions.{Exception, Result, ok, err, persistence_duplicate}
use agentic_cartoon_demo.Persistence.Types.{
  JsonValue, JsonFields, ArtifactType, ArtifactRecord, WorkflowRecord, ArtifactContent,
  AiInvocationInsertSpec, AiInvocationRecord,
}
use agentic_cartoon_demo.Persistence.Session.{Db, Action, pure, raise, and_then, ◌>>=◌, now}
use agentic_cartoon_demo.Persistence.Session.Keeps.{Keeps, >>=-Keeps}
use agentic_cartoon_demo.Persistence.WorkflowRepo.{get_workflow}
use agentic_cartoon_demo.Persistence.WorkflowRepo.Progress.{is_ok}
use agentic_cartoon_demo.Persistence.ArtifactRepo.{
  content_key, content_or_raise, invocation_key, get_active_artifact, list_artifacts,
  get_artifact_content, append_ai_invocation,
}
use agentic_cartoon_demo.Persistence.ArtifactRepo.Duplicate.{create_artifact-duplicate}
use agentic_cartoon_demo.Worker.Types.{TaskMessage}
use agentic_cartoon_demo.Worker.Handlers.{
  invocation, invocation_status, AgentId, Outside, CriticOutput, ask, artifact_spec, save_artifact,
  load_active_artifact, found_artifact, content_fields, after_agent, audit_failure,
  is_agent_failure, run_agent_stage,
}
use agentic_cartoon_demo.Worker.Handlers.Stages.{
  serialize_critic_output, revision_number, save_review, handle_review_scenario,
}

-- The artifacts are the same, and whether the session is in a transaction.
abbrev SameArtifacts : Db → Db → Type 0
SameArtifacts db after =
    (after.artifacts ≡ db.artifacts) × (after.in_transaction ≡ db.in_transaction)

>>=-Same {ℓ κ} :
    {A : Type ℓ} {B : Type κ} (m : Action A) (f : A → Action B)
    → Keeps SameArtifacts m
    → ((a : A) → Keeps SameArtifacts (f a))
    → Keeps SameArtifacts (m >>= f)
>>=-Same = >>=-Keeps SameArtifacts (λ db. (refl, refl)) (λ a b c h k. (k.0 ∙ h.0, k.1 ∙ h.1))

-- A review of the workflow, of version 1.
abbrev pub IsFirstReview : String → ArtifactRecord → Type 0
IsFirstReview id a =
    (a.workflow_id ≡ id) × (a.artifact_type ≡ ArtifactType.critic_review) × (a.version ≡ 1)

found-Same :
    (message : TaskMessage) (o : Option ArtifactRecord)
    → Keeps SameArtifacts (found_artifact message o)
found-Same message none db = (refl, refl)
found-Same message (some a) db = (refl, refl)

content-Same : (id : String) → Keeps SameArtifacts (get_artifact_content id)
unfolding get_artifact_content
content-Same id db = from (find content_key id db.artifact_content)
  where
    from : (o : Option ArtifactContent) → SameArtifacts db (content_or_raise o db).1
    from none = (refl, refl)
    from (some c) = (refl, refl)

fields-Same :
    (outside : Outside) (raw : JsonValue) → Keeps SameArtifacts (content_fields outside raw)
fields-Same outside (JsonValue.dict d) db = (refl, refl)
fields-Same outside JsonValue.null db = (refl, refl)
fields-Same outside (JsonValue.bool b) db = (refl, refl)
fields-Same outside (JsonValue.int n) db = (refl, refl)
fields-Same outside (JsonValue.str t) db = (refl, refl)
fields-Same outside (JsonValue.array l) db = (refl, refl)

invocation-Same : (spec : AiInvocationInsertSpec) → Keeps SameArtifacts (append_ai_invocation spec)
unfolding append_ai_invocation
invocation-Same spec db =
    elim (Bool-cases
      (is_some (find invocation_key (db.environment.uuid4 db.requests) db.ai_invocations))) [
        | inl e ↦ rw e (refl, refl)
        | inr e ↦ rw e (refl, refl)
      ]

active-Same :
    (id : String) (type : ArtifactType) → Keeps SameArtifacts (get_active_artifact id type)
unfolding get_active_artifact list_artifacts
active-Same id type db = (refl, refl)

audit-Same {ℓ} :
    (A : Type ℓ) (outside : Outside) (message : TaskMessage) (agent : AgentId)
    (input : Option String) (started_at : ℕ) (e : Exception)
    → Keeps SameArtifacts (audit_failure {A = A} outside message agent input started_at e)
audit-Same A outside message agent input started_at e =
    let spec = λ (t : ℕ).
      invocation message outside agent "unknown" input none started_at t (invocation_status e) in
    let again = λ (_ : AiInvocationRecord). raise {A = A} e in
    >>=-Same now (λ t. append_ai_invocation (spec t) >>= again) (λ db. (refl, refl))
      (λ t.
        >>=-Same (append_ai_invocation (spec t)) again (invocation-Same (spec t))
          (λ _ db. (refl, refl)))

module _ (outside : Outside) (message : TaskMessage) where
  load_active_artifact-Same :
      (type : ArtifactType) → Keeps SameArtifacts (load_active_artifact outside message type)
  unfolding load_active_artifact
  load_active_artifact-Same type =
      let pair = λ (a : ArtifactRecord) (content : JsonFields).
        pure {A = ArtifactRecord × JsonFields} (a, content) in
      let read = λ (a : ArtifactRecord) (raw : JsonValue). content_fields outside raw >>= pair a in
      let load = λ (a : ArtifactRecord). get_artifact_content a.artifact_id >>= read a in
      >>=-Same (get_active_artifact message.workflow_id type)
        (λ found. found_artifact message found >>= load) (active-Same message.workflow_id type)
        (λ found. >>=-Same (found_artifact message found) load (found-Same message found) (λ a.
          >>=-Same (get_artifact_content a.artifact_id) (read a) (content-Same a.artifact_id)
            (λ raw.
              >>=-Same (content_fields outside raw) (pair a) (fields-Same outside raw)
                (λ content db. (refl, refl)))))

  module _ {ℓ} {A : Type ℓ} (agent : AgentId) (input : Option String) (started_at : ℕ) where
    after_agent-Same :
        (r : Result A) → Keeps SameArtifacts (after_agent outside message agent input started_at r)
    after_agent-Same (ok output) = λ db. (refl, refl)
    after_agent-Same (err e) = elim (Bool-cases (is_agent_failure e)) [
      | inl f ↦ rw f (audit-Same A outside message agent input started_at e)
      | inr f ↦ rw f (λ db. (refl, refl))
    ]

    run_agent_stage-Same :
        (call : ℕ → Result A)
        → Keeps SameArtifacts (run_agent_stage outside message agent input started_at call)
    unfolding run_agent_stage
    run_agent_stage-Same call =
        >>=-Same (ask (λ n. ok (call n))) (after_agent outside message agent input started_at)
          (λ db. (refl, refl)) after_agent-Same

  save_review-duplicate :
      (id : String) (started_at : ℕ) (output : CriticOutput) (db : Db)
      → db.in_transaction ≡ true
      → Any (IsFirstReview message.workflow_id) db.artifacts
      → (save_review outside message id started_at output db).0 ≡ err persistence_duplicate
  unfolding save_review save_artifact
  save_review-duplicate id started_at output db inside there =
      let dup =
        create_artifact-duplicate
          (artifact_spec message ArtifactType.critic_review (serialize_critic_output output) 1) db
          inside there in
      ground (arith, inside, dup)

  -- A session in a transaction, with such a review among the artifacts.
  IsReviewed : Db → Type 0
  IsReviewed db = (db.in_transaction ≡ true) × Any (IsFirstReview message.workflow_id) db.artifacts

  kept : (db after : Db) → SameArtifacts db after → IsReviewed db → IsReviewed after
  unfolding IsReviewed
  kept db after e h = (e.1 ∙ h.0, subst (Any (IsFirstReview message.workflow_id)) (sym e.0) h.1)

  then_raises {ℓ κ} :
      {A : Type ℓ} {B : Type κ} (m : Action A) (f : A → Action B)
      → Keeps SameArtifacts m
      → ((a : A) → (mid : Db) → IsReviewed mid → is_ok (f a mid).0 ≡ false)
      → (db : Db) → IsReviewed db
      → is_ok ((m >>= f) db).0 ≡ false
  then_raises {A = A} m f keeps raises db h = from (m db).0 (m db).1 (kept db (m db).1 (keeps db) h)
    where
      from : (r : Result A) (mid : Db) → IsReviewed mid → is_ok (and_then r f mid).0 ≡ false
      from (ok a) mid h = raises a mid h
      from (err e) mid h = refl

  -- Once a review of version 1 of the workflow is stored, which is the version that every review
  -- gets, the handler of REVIEW_SCENARIO, run in a transaction, never returns again: whatever the
  -- critic says, of whichever scenario, it raises.
  pub handle_review_scenario-raises :
      (db : Db)
      → db.in_transaction ≡ true
      → Any (IsFirstReview message.workflow_id) db.artifacts
      → is_ok (handle_review_scenario outside message db).0 ≡ false
  unfolding handle_review_scenario IsReviewed get_workflow
  handle_review_scenario-raises db inside there =
      let stage = λ (scenario : ArtifactRecord × JsonFields) (w : Option WorkflowRecord) (t : ℕ).
        run_agent_stage outside message AgentId.critic (some scenario.0.artifact_id) t
          (outside.review_scenario scenario.1 (revision_number outside message w)) in
      let save = λ (scenario : ArtifactRecord × JsonFields) (t : ℕ).
        save_review outside message scenario.0.artifact_id t in
      let review = λ (scenario : ArtifactRecord × JsonFields) (w : Option WorkflowRecord) (t : ℕ).
        stage scenario w t >>= save scenario t in
      let start = λ (scenario : ArtifactRecord × JsonFields) (w : Option WorkflowRecord).
        now >>= review scenario w in
      let read = λ (scenario : ArtifactRecord × JsonFields).
        get_workflow message.workflow_id >>= start scenario in
      then_raises (load_active_artifact outside message ArtifactType.scenario) read
        (load_active_artifact-Same ArtifactType.scenario)
        (λ scenario.
          then_raises (get_workflow message.workflow_id) (start scenario) (λ db. (refl, refl))
            (λ w.
              then_raises now (review scenario w) (λ db. (refl, refl))
                (λ t.
                  then_raises (stage scenario w t) (save scenario t)
                    (run_agent_stage-Same AgentId.critic (some scenario.0.artifact_id) t
                      (outside.review_scenario scenario.1 (revision_number outside message w)))
                    (λ output mid h.
                      ap is_ok
                        (save_review-duplicate scenario.0.artifact_id t output mid h.0 h.1)))))
        db (inside, there)
