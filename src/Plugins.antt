-- ===== src/Plugins.antt =====
-- src/plugins: a stream of bytes carried by the messages of a WebSocket connection.
pub mod Copy
pub mod WsToStream
pub mod StreamToWs
pub mod Examples
