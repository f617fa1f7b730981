-- ===== src/Economy/Solvency.antt =====
-- pallets/economy/src/lib.rs: the reserved balances cover the claims.
pub mod Staking
pub mod Queues
pub mod Innovation
pub mod Rewards
pub mod History
