-- ===== src/Socks5.antt =====
-- The local SOCKS5 and HTTP proxy (socks5/).
pub mod Options
pub mod Udp
pub mod Handshake
pub mod Http
pub mod Run
