-- ===== src/Persistence.antt =====
-- src/persistence: the PostgreSQL repositories, the transaction manager and the schema of
-- migrations/persistence/001_initial.sql.
pub mod Types
pub mod Session
pub mod WorkflowRepo
pub mod OutboxRepo
pub mod IdempotencyRepo
pub mod TaskLeaseRepo
pub mod ArtifactRepo
pub mod Listings
pub mod Json
