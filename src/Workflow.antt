-- ===== src/Workflow.antt =====
-- src/workflow: the workflow engine and its parts.
pub mod Types
pub mod TransitionTable
pub mod OutboxBuilder
pub mod Executor
pub mod Engine
pub mod Effects
pub mod Reconcile
pub mod ReadModels
pub mod Commands
pub mod Invariants
pub mod Tests
