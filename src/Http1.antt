-- ===== src/Http1.antt =====
-- src/http1: one HTTP/1.1 connection over a transport.
pub mod Platform
pub mod IoBuffer
pub mod Write
pub mod Read
pub mod Request
pub mod Response
pub mod Closing
pub mod Unbounded
pub mod Server
pub mod Client
pub mod Examples
