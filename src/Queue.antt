-- ===== src/Queue.antt =====
-- internal/queue: the job types and the queue backends.
pub mod Types
pub mod Backend
pub mod Memory
pub mod Redis
