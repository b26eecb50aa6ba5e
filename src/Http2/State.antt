-- ===== src/Http2/State.antt =====
-- src/http2/state: the four small state machines of a connection.
pub mod Handshake
pub mod Settings
pub mod GoAway
pub mod PingPong
pub mod Once
