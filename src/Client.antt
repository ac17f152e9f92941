-- ===== src/Client.antt =====
-- The client program, Client/.
pub mod Headers
pub mod Udp
pub mod Tcp
pub mod Screen
pub mod Main
