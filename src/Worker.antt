-- ===== src/Worker.antt =====
-- internal/worker: the pool that renders the jobs.
pub mod Retry
pub mod Pool
pub mod Process
pub mod Loop
pub mod Shutdown
