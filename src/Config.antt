-- ===== src/Config.antt =====
-- The configuration values that the modelled components read: config/types.py.
use mathlib.Core.Bool.{decide, decide_iff}
use agentic_cartoon_demo.Base.{ℕ, ◌≡◌, ◌↔◌, Bool, true, String}

pub data TaskType : Type 0 where
  collect select_topic generate_scenario review_scenario : TaskType

unfoldable pub TaskType-discrete : Discrete TaskType
TaskType-discrete = hlevel

unfoldable pub task_type_eq : TaskType → TaskType → Bool
unfolding decide TaskType-discrete
task_type_eq a b = decide (TaskType-discrete a b)

pub task_type_eq_iff : (a b : TaskType) → (task_type_eq a b ≡ true) ↔ (a ≡ b)
unfolding task_type_eq
task_type_eq_iff a b = decide_iff (TaskType-discrete a b)

-- The value of the `StrEnum` member.
unfoldable pub task_type_value : TaskType → String
task_type_value TaskType.collect = "COLLECT"
task_type_value TaskType.select_topic = "SELECT_TOPIC"
task_type_value TaskType.generate_scenario = "GENERATE_SCENARIO"
task_type_value TaskType.review_scenario = "REVIEW_SCENARIO"

pub record WorkflowConfig : Type 0 where
  pub max_scenario_revisions : ℕ
