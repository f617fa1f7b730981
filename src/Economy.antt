-- ===== src/Economy.antt =====
-- pallets/economy/src/lib.rs: staking, innovation staking and its reward pool, eras.
pub mod Types
pub mod Staking
pub mod Queues
pub mod Shares
pub mod Innovation
pub mod Eras
pub mod Power
pub mod Calls
pub mod Claims
pub mod Frames
pub mod Tallies
pub mod TallyCalls
pub mod Rewards
pub mod ShareTotals
pub mod Lifecycle
pub mod Minimum
pub mod EraLaws
pub mod Solvency
pub mod Runtime
mod Tests
