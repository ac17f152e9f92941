-- ===== src/Server.antt =====
-- The server program, Server/.
pub mod Logger
pub mod Udp
pub mod Session
pub mod Tcp
pub mod Main
pub mod Crc
