-- ===== src/Shared/Rdt.antt =====
-- shared/rdt_core.py: reliable transfer over UDP. A call is a machine that takes one turn of its loop
-- for each input; a turn has effects and goes on, or the call ends.
pub mod Action
pub mod Receiver
pub mod Sender
pub mod Network
