-- ===== src/Workflow/Invariants.antt =====
-- The tables after calls of workflow/engine.py, in any sequence.
pub mod Rows
pub mod Audit
pub mod Gate
pub mod Frozen
pub mod Outbox
pub mod Revisions
