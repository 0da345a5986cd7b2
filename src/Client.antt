-- ===== src/Client.antt =====
-- The package client/: the control connection, the client's state, its command handlers and its main loop.
pub mod Connection
pub mod Context
pub mod Control
pub mod Handlers
pub mod Dispatch
pub mod Main
