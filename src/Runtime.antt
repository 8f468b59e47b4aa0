-- ===== src/Runtime.antt =====
-- The coordinator process: runtime/.
pub mod Publisher
pub mod Tests
