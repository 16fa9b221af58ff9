-- ===== src/Observability.antt =====
-- internal/observability: metrics, request ids and log levels.
pub mod Metrics
pub mod Logging
pub mod Middleware
pub mod Format
pub mod Labels
pub mod Calls
pub mod View
pub mod Exposition
