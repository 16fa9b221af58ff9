-- ===== src/Realtime.antt =====
-- internal/realtime: the websocket hub.
pub mod Frame
pub mod Handshake
pub mod Hub
pub mod Serve
