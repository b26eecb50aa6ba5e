-- ===== src/Ws.antt =====
-- src/ws: a WebSocket connection over a transport.
pub mod Message
pub mod Platform
pub mod Codec
pub mod Handshake
pub mod Control
pub mod State
pub mod Accept
pub mod Server
pub mod Client
pub mod Ending
pub mod Examples
