-- ===== src/Protocol.antt =====
-- The client and the server together.
pub mod Ending
pub mod Passive
pub mod Delivery
