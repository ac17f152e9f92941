-- ===== src/Protocol.antt =====
-- The wire protocol, which both programs hold a copy of.
pub mod Wire
pub mod Reader
pub mod GroupData
pub mod Packet
pub mod Sender
pub mod Assembly
pub mod Receiving
