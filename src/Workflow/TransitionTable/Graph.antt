-- ===== src/Workflow/TransitionTable/Graph.antt =====
-- The state diagram as a relation, and the lookup of workflow/transition_table.py against it.
use agentic_cartoon_demo.Base.{
  subst, ℕ, leb, Bool-cases, leb→le, leb→gt, ◌≡◌, refl, ◌≢◌, ◌≤◌, ◌<◌, ◌↔◌, ◌⊎◌, inl, inr, true,
  false, arith,
}
use agentic_cartoon_demo.Exceptions.{Exception, Result, ok, err, invalid_transition}
use agentic_cartoon_demo.Workflow.Types.{WorkflowState, TransitionSignal, is_transient}
use agentic_cartoon_demo.Workflow.TransitionTable.{TransitionDecision, lookup, expected_outbox_task}

-- The legal moves of a workflow that has had `count` revisions of the `limit` that are allowed. The
-- three failures leave any state that is neither terminal nor the pause for approval.
pub data Edge (count limit : ℕ) : WorkflowState → TransitionSignal → WorkflowState → Type 0 where
  collect :
      Edge count limit WorkflowState.collecting TransitionSignal.stage_completed
        WorkflowState.collected
  pick :
      Edge count limit WorkflowState.collected TransitionSignal.stage_completed
        WorkflowState.selecting_topic
  select :
      Edge count limit WorkflowState.selecting_topic TransitionSignal.stage_completed
        WorkflowState.topic_selected
  unsuitable :
      Edge count limit WorkflowState.selecting_topic TransitionSignal.no_suitable_topic
        WorkflowState.no_suitable_topic
  begin :
      Edge count limit WorkflowState.topic_selected TransitionSignal.stage_completed
        WorkflowState.generating_scenario
  generate :
      Edge count limit WorkflowState.generating_scenario TransitionSignal.stage_completed
        WorkflowState.scenario_generated
  submit :
      Edge count limit WorkflowState.scenario_generated TransitionSignal.stage_completed
        WorkflowState.reviewing
  pass :
      Edge count limit WorkflowState.reviewing TransitionSignal.critic_pass
        WorkflowState.review_passed
  revise :
      count < limit
      → Edge count limit WorkflowState.reviewing TransitionSignal.critic_revise
          WorkflowState.revision_required
  give_up :
      limit ≤ count
      → Edge count limit WorkflowState.reviewing TransitionSignal.critic_revise
          WorkflowState.review_failed
  redo :
      Edge count limit WorkflowState.revision_required TransitionSignal.stage_completed
        WorkflowState.generating_scenario
  pause :
      Edge count limit WorkflowState.review_passed TransitionSignal.stage_completed
        WorkflowState.awaiting_human_approval
  break :
      {s : WorkflowState}
      → is_transient s ≡ true
      → Edge count limit s TransitionSignal.unrecoverable_error WorkflowState.failed
  exhaust :
      {s : WorkflowState}
      → is_transient s ≡ true
      → Edge count limit s TransitionSignal.retries_exhausted WorkflowState.failed_permanently
  time_out :
      {s : WorkflowState}
      → is_transient s ≡ true
      → Edge count limit s TransitionSignal.reconciliation_repair WorkflowState.failed

ruleset edges = (
  collect, pick, select, unsuitable, begin, generate, submit, pass, revise, give_up, redo, pause,
  break, exhaust, time_out,
)

pub Edge-is_transient :
    {count limit : ℕ} {s t : WorkflowState} {signal : TransitionSignal}
    → Edge count limit s signal t
    → is_transient s ≡ true
Edge-is_transient (break h) = h
Edge-is_transient (exhaust h) = h
Edge-is_transient (time_out h) = h
Edge-is_transient _ = refl

-- What a result of the lookup says of the diagram.
abbrev Follows : ℕ → ℕ → WorkflowState → TransitionSignal → Result TransitionDecision → Type 0
Follows count limit s signal (ok d) =
    Edge count limit s signal d.to_state × (d.from_state ≡ s) × (d.signal ≡ signal)
Follows count limit s signal (err e) = e ≡ invalid_transition "" s signal

lookup-Follows :
    (s : WorkflowState) (signal : TransitionSignal) (count limit : ℕ)
    → Follows count limit s signal (lookup s signal count limit)
unfolding lookup
lookup-Follows WorkflowState.reviewing TransitionSignal.critic_revise count limit =
    elim (Bool-cases (leb limit count)) [
      | inl e ↦ rw e (give_up (leb→le limit count e), refl, refl)
      | inr e ↦ rw e (revise (leb→gt limit count e), refl, refl)
    ]
lookup-Follows WorkflowState.created TransitionSignal.stage_completed count limit = refl
lookup-Follows _ _ count limit = grind (arith, edges)

-- What a decision enqueues and counts: the task that the state it leads to waits for.
abbrev Enqueues : Result TransitionDecision → Type 0
Enqueues (ok d) =
    ((d.outbox_task_type ≡ expected_outbox_task d.to_state)
      ⊎ (d.to_state ≡ WorkflowState.generating_scenario))
    × ((d.increment_revision_count ≡ true) ⊎ (d.to_state ≢ WorkflowState.revision_required))
    × ((d.increment_revision_count ≡ false) ⊎ (d.to_state ≡ WorkflowState.revision_required))
Enqueues (err e) = Unit

lookup-Enqueues :
    (s : WorkflowState) (signal : TransitionSignal) (count limit : ℕ)
    → Enqueues (lookup s signal count limit)
unfolding lookup expected_outbox_task
lookup-Enqueues WorkflowState.reviewing TransitionSignal.critic_revise count limit = ground arith
lookup-Enqueues WorkflowState.created TransitionSignal.stage_completed count limit = tt
lookup-Enqueues _ _ count limit = ground arith

abbrev Reaches : WorkflowState → Result TransitionDecision → Type 0
Reaches t (ok d) = d.to_state ≡ t
Reaches t (err e) = ⊥

Edge-Reaches :
    {count limit : ℕ} {s t : WorkflowState} {signal : TransitionSignal}
    → Edge count limit s signal t
    → Reaches t (lookup s signal count limit)
unfolding lookup
Edge-Reaches collect = refl
Edge-Reaches (revise h) = ground arith
Edge-Reaches (give_up h) = ground arith
Edge-Reaches (break h) = ground arith
Edge-Reaches (exhaust h) = ground arith
Edge-Reaches (time_out h) = ground arith
Edge-Reaches _ = refl

pub Reaches-ok :
    (t : WorkflowState) (r : Result TransitionDecision)
    → Reaches t r
    → (d : TransitionDecision) × (r ≡ ok d) × (d.to_state ≡ t)
Reaches-ok t (ok d) h = (d, refl, h)
Reaches-ok t (err e) h = absurd h

-- The lookup succeeds with a decision for the state `t` exactly when the diagram has the edge from
-- `s` to `t` under the signal.
pub lookup_iff :
    (s : WorkflowState) (signal : TransitionSignal) (count limit : ℕ) (t : WorkflowState)
    → ((d : TransitionDecision) × (lookup s signal count limit ≡ ok d) × (d.to_state ≡ t))
      ↔ Edge count limit s signal t
lookup_iff s signal count limit t = (
  (λ (d, found, to).
      let follows =
        subst (Follows count limit s signal) found (lookup-Follows s signal count limit) in
      subst (Edge count limit s signal) to follows.0),
  λ edge. Reaches-ok t (lookup s signal count limit) (Edge-Reaches edge),
)

-- A refused lookup raises InvalidTransitionError with the state and the signal that were given.
pub lookup_error :
    (s : WorkflowState) (signal : TransitionSignal) (count limit : ℕ) (e : Exception)
    → lookup s signal count limit ≡ err e
    → e ≡ invalid_transition "" s signal
lookup_error s signal count limit e refused =
    subst (Follows count limit s signal) refused (lookup-Follows s signal count limit)

pub lookup-from :
    (s : WorkflowState) (signal : TransitionSignal) (count limit : ℕ) (d : TransitionDecision)
    → lookup s signal count limit ≡ ok d
    → (d.from_state ≡ s) × Edge count limit s signal d.to_state
lookup-from s signal count limit d found =
    let follows =
      subst (Follows count limit s signal) found (lookup-Follows s signal count limit) in
    (follows.1, follows.0)

-- A decision enqueues the task that `expected_outbox_task` names for the state it leads to, except
-- for the state GENERATING_SCENARIO; and it counts a revision exactly when it leads to
-- REVISION_REQUIRED.
pub lookup-Enqueues_lem :
    (s : WorkflowState) (signal : TransitionSignal) (count limit : ℕ) (d : TransitionDecision)
    → lookup s signal count limit ≡ ok d
    → ((d.outbox_task_type ≡ expected_outbox_task d.to_state)
        ⊎ (d.to_state ≡ WorkflowState.generating_scenario))
      × ((d.increment_revision_count ≡ true) ↔ (d.to_state ≡ WorkflowState.revision_required))
lookup-Enqueues_lem s signal count limit d found =
    let enqueues = subst Enqueues found (lookup-Enqueues s signal count limit) in
    (enqueues.0, ((λ p. ground (arith, enqueues)), (λ p. ground (arith, enqueues))))
