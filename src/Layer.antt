-- ===== src/Layer.antt =====
-- src/layer: the limits on a connection's data rate and on its idle times.
pub mod RateLimit
pub mod Timeout
mod Examples
