-- ===== src/Body.antt =====
-- src/body.rs: the body of a message, from its source to the bytes on the wire.
pub mod Platform
pub mod Receiver
pub mod State
pub mod Codec
pub mod Process
pub mod Plain
pub mod Output
pub mod RoundTrip
pub mod Range
pub mod Limits
pub mod Examples
