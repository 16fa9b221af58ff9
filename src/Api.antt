-- ===== src/Api.antt =====
-- internal/api: the HTTP handlers.
pub mod Writer
pub mod World
pub mod Validate
pub mod Submit
pub mod Jobs
