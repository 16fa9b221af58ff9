-- ===== src/Storage.antt =====
-- internal/storage: the metadata of the jobs.
pub mod Store
pub mod Sort
pub mod Memory
pub mod Fields
pub mod Redis
