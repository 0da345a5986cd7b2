-- ===== src/Client/Handlers.antt =====
-- The package client/control/handlers/.
pub mod Simple
pub mod Patterns
pub mod Setup
pub mod Transfer
pub mod Worker
pub mod Channel
