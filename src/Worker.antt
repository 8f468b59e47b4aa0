-- ===== src/Worker.antt =====
-- The worker: worker/.
pub mod Types
pub mod StateGuard
pub mod Idempotency
pub mod Commit
pub mod Retry
pub mod Handlers
pub mod Failure
pub mod Delivery
pub mod Tests
