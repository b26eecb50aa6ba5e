-- ===== src/Proxy.antt =====
-- src/proxy.rs: the kinds of proxies, where they are found, and how a connection is made through one.
pub mod Platform
pub mod Tunnel
pub mod Socks5
pub mod Select
pub mod Examples
