-- ===== src/Http2.antt =====
-- src/http2: the HTTP/2 connection.
pub mod Frame
pub mod Platform
pub mod Codec
pub mod State
pub mod PriorityQueue
pub mod Send
pub mod InnerStream
pub mod Control
pub mod Builder
pub mod Server
pub mod Client
mod Examples
