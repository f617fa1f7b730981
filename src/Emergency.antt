-- ===== src/Emergency.antt =====
-- pallets/emergency/src/lib.rs: stopping single calls, and the maintenance mode.
pub mod Types
pub mod Calls
pub mod Laws
mod Tests
