-- ===== src/Filesystem.antt =====
-- The provider on a folder, crates/auru-pm/src/filesystem.rs.
pub mod Control
pub mod Objects
pub mod Repository
pub mod Provided
pub mod Seen
pub mod Contract
