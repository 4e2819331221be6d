-- ===== src/Protocol.antt =====
-- crates/auru-pm-protocol/src/lib.rs: the retention rule.
pub mod Retention
