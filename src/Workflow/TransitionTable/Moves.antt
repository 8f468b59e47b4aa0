-- ===== src/Workflow/TransitionTable/Moves.antt =====
-- Where one and two moves of the state diagram of workflow/transition_table.py lead.
use agentic_cartoon_demo.Base.{ℕ, ◌≡◌, refl, ◌≢◌, Bool, true, false, ◌&&◌, arith}
use agentic_cartoon_demo.Workflow.Types.{WorkflowState, TransitionSignal, is_transient}
use agentic_cartoon_demo.Workflow.TransitionTable.Graph.{Edge}

-- Whether a move leads from `s` to `t`.
abbrev is_next : WorkflowState → WorkflowState → Bool
is_next s WorkflowState.failed = true
is_next s WorkflowState.failed_permanently = true
is_next WorkflowState.collecting WorkflowState.collected = true
is_next WorkflowState.collected WorkflowState.selecting_topic = true
is_next WorkflowState.selecting_topic WorkflowState.topic_selected = true
is_next WorkflowState.selecting_topic WorkflowState.no_suitable_topic = true
is_next WorkflowState.topic_selected WorkflowState.generating_scenario = true
is_next WorkflowState.generating_scenario WorkflowState.scenario_generated = true
is_next WorkflowState.scenario_generated WorkflowState.reviewing = true
is_next WorkflowState.reviewing WorkflowState.review_passed = true
is_next WorkflowState.reviewing WorkflowState.revision_required = true
is_next WorkflowState.reviewing WorkflowState.review_failed = true
is_next WorkflowState.revision_required WorkflowState.generating_scenario = true
is_next WorkflowState.review_passed WorkflowState.awaiting_human_approval = true
is_next _ _ = false

abbrev leads : WorkflowState → WorkflowState → Bool
leads s t = is_transient s && is_next s t

Edge-leads :
    {count limit : ℕ} {s t : WorkflowState} {signal : TransitionSignal}
    → Edge count limit s signal t
    → leads s t ≡ true
Edge-leads (Edge.break h) = ground (arith, h)
Edge-leads (Edge.exhaust h) = ground (arith, h)
Edge-leads (Edge.time_out h) = ground (arith, h)
Edge-leads (Edge.revise h) = refl
Edge-leads (Edge.give_up h) = refl
Edge-leads _ = refl

Edge-back :
    {count limit : ℕ} {s t : WorkflowState} {signal : TransitionSignal}
    → Edge count limit s signal t
    → leads t s ≡ false
Edge-back (Edge.break h) = refl
Edge-back (Edge.exhaust h) = refl
Edge-back (Edge.time_out h) = refl
Edge-back (Edge.revise h) = refl
Edge-back (Edge.give_up h) = refl
Edge-back _ = refl

-- A move leads to another state.
pub one-move :
    {count limit : ℕ} {s t : WorkflowState} {signal : TransitionSignal}
    → Edge count limit s signal t
    → t ≢ s
one-move e same = let forth = Edge-leads e in let back = Edge-back e in cc (same, forth, back)

-- Two moves never lead back to where they began.
pub two-moves :
    {count limit count' limit' : ℕ} {s t u : WorkflowState} {signal signal' : TransitionSignal}
    → Edge count limit s signal t
    → Edge count' limit' t signal' u
    → u ≢ s
two-moves e e' same = let forth = Edge-leads e' in let back = Edge-back e in cc (same, forth, back)
