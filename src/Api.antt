-- ===== src/Api.antt =====
-- src/api: the validation of what clients send.
pub mod Validation
pub mod Accepted
mod Tests
