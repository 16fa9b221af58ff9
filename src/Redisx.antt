-- ===== src/Redisx.antt =====
-- internal/redisx: the Redis client. Bytes are numbers below 256, and a text is its list of bytes.
pub mod Decimal
pub mod Resp
pub mod New
pub mod Client
pub mod Strconv
pub mod Answer
pub mod Server
