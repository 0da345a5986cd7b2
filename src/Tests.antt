-- ===== src/Tests.antt =====
-- Concrete runs, and the theorems at concrete inputs.
mod Codec
mod Conversion
mod Transfer
mod Commands
mod Control
mod Sides
mod Delivery
mod Runs
