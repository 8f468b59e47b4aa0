-- ===== src/Workflow/ReadModels/Summary.antt =====
-- When an output is returned, and what it says of its workflow: workflow/read_models.py.
use agentic_cartoon_demo.Base.{
  ℕ, ◌≡◌, refl, filter, sort, sort-All, leb, All, ap, ◌∙◌, ◌↔◌, inl, inr, Bool, true, not, ◌&&◌,
  String, List, [], ◌∷◌, ◌++◌, none, some, is_some, find, Option-cases, Bool-cases, arith,
}
use agentic_cartoon_demo.Exceptions.{ok}
use agentic_cartoon_demo.Persistence.Types.{
  JsonValue, ArtifactType, ArtifactRecord, WorkflowRecord, WorkflowTransitionRecord,
  AiInvocationRecord,
}
use agentic_cartoon_demo.Persistence.Session.{Db, pure, ◌>>=◌}
use agentic_cartoon_demo.Persistence.Session.Laws.{>>=-step}
use agentic_cartoon_demo.Persistence.WorkflowRepo.{get_workflow, list_transitions, transition_of}
use agentic_cartoon_demo.Persistence.ArtifactRepo.{
  get_active_artifact, get_artifact_content, content_or_raise, content_key, list_ai_invocations,
  list_artifacts, is_listed, first, is_invoked_by,
}
use agentic_cartoon_demo.Workflow.Types.{WorkflowState, state_eq_iff, is_terminal}
use agentic_cartoon_demo.Workflow.Invariants.Rows.{row_of}
use agentic_cartoon_demo.Workflow.ReadModels.{WorkflowOutput, known}
use agentic_cartoon_demo.Workflow.ReadModels.Output.{
  section, section_of, source_section, topic_section, scenario_section, critic_section, of_dict,
  execution_section, output, assemble_output, get_workflow_output,
}

abbrev Sections : Type 0
Sections = List (String × JsonValue)

-- The artifact's content is stored.
abbrev pub HasContent : Db → ArtifactRecord → Type 0
HasContent db a = is_some (find content_key a.artifact_id db.artifact_content) ≡ true

filter-All :
    (P : ArtifactRecord → Type 0) (p : ArtifactRecord → Bool) (as_ : List ArtifactRecord)
    → All P as_
    → All P (filter p as_)
filter-All P p [] h = tt
filter-All P p (a ∷ as_) h = elim (Bool-cases (p a)) [
  | inl e ↦ rw (e, All) (h.0, filter-All P p as_ h.1)
  | inr e ↦ rw e (filter-All P p as_ h.1)
]

module _ (db : Db) (full : All (HasContent db) db.artifacts) where
  section_of-returns :
      (f : ArtifactRecord → JsonValue → Sections) (listed : List ArtifactRecord)
      → All (HasContent db) listed
      → (s : Sections) × (section_of f (first listed) db ≡ (ok s, db))
  unfolding get_artifact_content
  section_of-returns f [] h = ([], refl)
  section_of-returns f (a ∷ as_) h =
      elim (Option-cases (find content_key a.artifact_id db.artifact_content)) [
        | inl missing ↦ absurd (ground (arith, missing, h.0))
        | inr (c, there) ↦
            (f a c.content, ap (λ o. (content_or_raise o >>= λ x. pure (f a x)) db) there)
      ]

  section-returns :
      (id : String) (type : ArtifactType) (f : ArtifactRecord → JsonValue → Sections)
      → (s : Sections) × (section id type f db ≡ (ok s, db))
  unfolding get_active_artifact list_artifacts
  section-returns id type f =
      let listed = filter (is_listed id (some type) true) db.artifacts in
      section_of-returns f (sort (λ x y. leb x.version y.version) listed) (
        sort-All (λ x y. leb x.version y.version) (HasContent db) listed
          (filter-All (HasContent db) (is_listed id (some type) true) db.artifacts full))

-- What an output says of the row that it was made of.
pub record IsSummary (w : WorkflowRecord) (o : WorkflowOutput) : Type 0 where
  pub same_workflow : o.workflow_id ≡ w.workflow_id
  pub same_state : o.state ≡ w.state
  pub complete : (o.is_complete ≡ true) ↔ (w.state ≡ WorkflowState.approved)
  pub failed : is_some o.failure_reason ≡ (is_terminal w.state && not o.is_complete)

output-IsSummary :
    (isoformat : ℕ → String) (w : WorkflowRecord) (sections : Sections)
    → IsSummary w (output isoformat w sections)
output-IsSummary isoformat w sections = record {
  same_workflow = refl;
  same_state = refl;
  complete = state_eq_iff w.state WorkflowState.approved;
  failed = ground arith;
}

module _ (isoformat : ℕ → String) (db : Db) (full : All (HasContent db) db.artifacts) where
  assemble_output-returns :
      (w : WorkflowRecord)
      → (sections : Sections) × (assemble_output isoformat w db
          ≡ (ok (output isoformat w sections), db))
  unfolding assemble_output list_transitions list_ai_invocations
  assemble_output-returns w =
      let id = w.workflow_id in
      let source = section id ArtifactType.collected_stories (source_section isoformat) in
      let topic = section id ArtifactType.topic_selection (of_dict "topic" topic_section) in
      let scenario = section id ArtifactType.scenario (of_dict "scenario" scenario_section) in
      let critic = section id ArtifactType.critic_review (of_dict "critic" critic_section) in
      let all =
        λ (a b c d : Sections) (ts : List WorkflowTransitionRecord) (is : List AiInvocationRecord).
          a ++ (b ++ (c ++ (d ++ execution_section isoformat w ts is))) in
      let calls = λ (a b c d : Sections) (ts : List WorkflowTransitionRecord).
        list_ai_invocations id none >>= λ is. pure (output isoformat w (all a b c d ts is)) in
      let moves = λ (a b c d : Sections). list_transitions id >>= calls a b c d in
      let fourth = λ (a b c : Sections). critic >>= moves a b c in
      let third = λ (a b : Sections). scenario >>= fourth a b in
      let second = λ (a : Sections). topic >>= third a in
      let (a, e₁) =
        section-returns db full id ArtifactType.collected_stories (source_section isoformat) in
      let (b, e₂) =
        section-returns db full id ArtifactType.topic_selection (of_dict "topic" topic_section) in
      let (c, e₃) =
        section-returns db full id ArtifactType.scenario (of_dict "scenario" scenario_section) in
      let (d, e₄) =
        section-returns db full id ArtifactType.critic_review (of_dict "critic" critic_section) in
      let ts =
        sort (λ x y. leb x.occurred_at y.occurred_at)
          (filter (transition_of id) db.workflow_transitions) in
      let is =
        sort (λ x y. leb x.invocation.started_at y.invocation.started_at)
          (filter (is_invoked_by id none) db.ai_invocations) in
      (
        all a b c d ts is,
        >>=-step source second db e₁ (
            >>=-step topic (third a) db e₂
              (>>=-step scenario (fourth a b) db e₃ (>>=-step critic (moves a b c) db e₄ refl))),
      )

  -- Where every artifact has its content, the output of a workflow that has a row is returned, and
  -- no table changes. It names the row's workflow and state; it is complete exactly when the
  -- workflow is APPROVED; and it has a failure reason exactly when the state is terminal and the
  -- output is not complete.
  pub get_workflow_output-IsSummary :
      (id : String) (w : WorkflowRecord)
      → row_of id db ≡ some w
      → (o : WorkflowOutput) × (get_workflow_output isoformat id db ≡ (ok o, db)) × IsSummary w o
  unfolding get_workflow_output get_workflow
  get_workflow_output-IsSummary id w found =
      let (sections, ran) = assemble_output-returns w in
      (
        output isoformat w sections,
        ap (λ o. (known id o >>= assemble_output isoformat) db) found ∙ ran,
        output-IsSummary isoformat w sections,
      )
