-- ===== src/Spp.antt =====
-- pallets/spp/src/lib.rs: the staking pools, their receipts and the queues of redemptions.
pub mod Types
pub mod Pools
pub mod Redeem
pub mod Unlock
pub mod Booking
pub mod Rounds
pub mod Unlocking
pub mod Filing
pub mod Redeeming
pub mod Backing
pub mod Exchange
mod Tests
