-- ===== src/Economy/Rewards.antt =====
-- pallets/economy/src/lib.rs: of no reward currency is more withdrawn than there is.
pub mod Funded
pub mod Claims
pub mod Calls
