-- ===== src/Transport.antt =====
-- internal/transport: sessions with devices, over SSH and over telnet.
pub mod Output
pub mod Telnet
pub mod Ssh
