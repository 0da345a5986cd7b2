-- ===== src/Server/Handlers.antt =====
-- The handlers of server/control/handlers/, a module for each of its files.
pub mod Auth
pub mod Setup
pub mod File
pub mod Navigation
pub mod Listing
pub mod Transfer
pub mod Help
pub mod Cases
