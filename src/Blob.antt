-- ===== src/Blob.antt =====
-- internal/blob: the storage of the PDF bytes.
pub mod Store
pub mod Memory
pub mod Signature
pub mod S3
