-- ===== src/Server.antt =====
-- src/server.rs: a server's connection, which speaks HTTP/1.1 first and may move to HTTP/2 or WebSocket.
pub mod Parts
pub mod Setup
pub mod Builder
pub mod Incoming
pub mod Messages
mod Examples
