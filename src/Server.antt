-- ===== src/Server.antt =====
-- The package server/: replies, the session of one client, the command handlers and their dispatcher.
pub mod Reply
pub mod Session
pub mod System
pub mod Files
pub mod Outcome
pub mod Handlers
pub mod Dispatch
pub mod DataChannel
pub mod Worker
pub mod Job
pub mod Loop
