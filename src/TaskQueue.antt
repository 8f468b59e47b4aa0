-- ===== src/TaskQueue.antt =====
-- src/task_queue: what stands between a task's message and the fields of a stream's entry.
pub mod Validation
pub mod Serializer
pub mod Transport
mod Tests
