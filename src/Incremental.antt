-- ===== src/Incremental.antt =====
-- crates/rlyeh-driver/src/incremental: which modules are compiled again.
pub mod DepGraph
pub mod Order
pub mod Membership
pub mod Affected
mod Examples
