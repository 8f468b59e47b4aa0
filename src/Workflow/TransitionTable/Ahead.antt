-- ===== src/Workflow/TransitionTable/Ahead.antt =====
-- Where the moves of workflow/transition_table.py lead when every stage goes well.
use agentic_cartoon_demo.Base.{ℕ, ◌≡◌, refl, ◌≢◌, ◌⊎◌, inl, inr, true, false}
use agentic_cartoon_demo.Exceptions.{ok}
use agentic_cartoon_demo.Workflow.Types.{WorkflowState, TransitionSignal, is_transient}
use agentic_cartoon_demo.Workflow.TransitionTable.{TransitionDecision, lookup}

-- The signals of a stage that went well.
pub data IsProgress : TransitionSignal → Type 0 where
  completed : IsProgress TransitionSignal.stage_completed
  passed : IsProgress TransitionSignal.critic_pass

-- A workflow's way by moves of the lookup, each made for a stage that went well.
pub data Trail (count limit : ℕ) : WorkflowState → WorkflowState → Type 0 where
  here : {s : WorkflowState} → Trail count limit s s
  step :
      {s u : WorkflowState} {signal : TransitionSignal} {d : TransitionDecision}
      → IsProgress signal
      → lookup s signal count limit ≡ ok d
      → Trail count limit d.to_state u
      → Trail count limit s u

ahead :
    (count limit : ℕ) (s : WorkflowState)
    → (s ≡ WorkflowState.created)
      ⊎ (is_transient s ≡ false)
      ⊎ Trail count limit s WorkflowState.awaiting_human_approval
unfolding lookup
ahead count limit = elim [
  | WorkflowState.created ↦ inl refl
  | WorkflowState.collecting ↦ inr (inr (step completed refl from_collected))
  | WorkflowState.collected ↦ inr (inr from_collected)
  | WorkflowState.selecting_topic ↦ inr (inr from_selecting)
  | WorkflowState.topic_selected ↦ inr (inr from_selected)
  | WorkflowState.generating_scenario ↦ inr (inr from_generating)
  | WorkflowState.scenario_generated ↦ inr (inr from_generated)
  | WorkflowState.reviewing ↦ inr (inr from_reviewing)
  | WorkflowState.revision_required ↦ inr (inr (step completed refl from_generating))
  | WorkflowState.review_passed ↦ inr (inr from_passed)
  | _ ↦ inr (inl refl)
]
  where
    from_passed :
        Trail count limit WorkflowState.review_passed WorkflowState.awaiting_human_approval
    from_passed = step completed refl here

    from_reviewing : Trail count limit WorkflowState.reviewing WorkflowState.awaiting_human_approval
    from_reviewing = step passed refl from_passed

    from_generated :
        Trail count limit WorkflowState.scenario_generated WorkflowState.awaiting_human_approval
    from_generated = step completed refl from_reviewing

    from_generating :
        Trail count limit WorkflowState.generating_scenario WorkflowState.awaiting_human_approval
    from_generating = step completed refl from_generated

    from_selected :
        Trail count limit WorkflowState.topic_selected WorkflowState.awaiting_human_approval
    from_selected = step completed refl from_generating

    from_selecting :
        Trail count limit WorkflowState.selecting_topic WorkflowState.awaiting_human_approval
    from_selecting = step completed refl from_selected

    from_collected : Trail count limit WorkflowState.collected WorkflowState.awaiting_human_approval
    from_collected = step completed refl from_selecting

-- From every transient state but CREATED, moves of the lookup lead to the human approval, with no
-- signals but STAGE_COMPLETED and CRITIC_PASS.
pub reaches_approval :
    (count limit : ℕ) (s : WorkflowState)
    → is_transient s ≡ true
    → s ≢ WorkflowState.created
    → Trail count limit s WorkflowState.awaiting_human_approval
reaches_approval count limit s running started = elim (ahead count limit s) [
  | inl e ↦ absurd (started e)
  | inr (inl e) ↦ cc
  | inr (inr trail) ↦ trail
]
