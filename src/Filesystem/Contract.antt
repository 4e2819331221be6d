-- ===== src/Filesystem/Contract.antt =====
-- The folder provider of crates/auru-pm/src/filesystem.rs keeps the contract of a provider.
use auru_pm_core.Commit.{Commit}
