-- ===== src/Shared.antt =====
-- The package shared/: constants, checksum, packets, block framing and reliable transfer.
pub mod Constants
pub mod Checksum
pub mod Packet
pub mod BlockMode
pub mod Address
pub mod Rdt
