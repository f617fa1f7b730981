-- ===== src/Estate.antt =====
-- pallets/estate/src/lib.rs: land units, estates, undeployed land blocks and leases.
pub mod Types
pub mod Coordinates
pub mod CoordinateLaws
pub mod Lands
pub mod Estates
pub mod Blocks
pub mod Leases
pub mod Handler
pub mod Calls
pub mod Frames
pub mod Counts
pub mod EstateCounts
pub mod BlockCounts
pub mod Deploy
pub mod CountCalls
pub mod BlockOwners
pub mod OwnerCalls
pub mod Rent
pub mod OwnerLaws
pub mod Issue
pub mod Metadata
pub mod LeaseLaws
pub mod LeaseCalls
pub mod Strands
pub mod StrandEstates
pub mod StrandCalls
pub mod Runtime
mod Tests
