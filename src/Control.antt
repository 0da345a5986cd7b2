-- ===== src/Control.antt =====
-- The control channel's bytes, which server/main_server.py and client/control/client_control.py cut into lines.
pub mod Lines
pub mod Drain
