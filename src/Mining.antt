-- ===== src/Mining.antt =====
-- pallets/mining/src (lib.rs, mining.rs): the mining resource, its origins and its rounds.
pub mod Types
pub mod Rounds
pub mod Resource
pub mod Calls
pub mod RoundLaws
pub mod OriginLaws
mod Tests
