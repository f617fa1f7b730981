-- ===== src/Metaverse.antt =====
-- pallets/metaverse/src/lib.rs: metaverses, their owners and their token classes.
pub mod Types
pub mod Registry
pub mod Calls
pub mod Laws
pub mod CallLaws
pub mod History
mod Tests
