-- ===== src/Server.antt =====
-- crates/auru-pm-server/src/main.rs: the reference server. `Store` is the database and its
-- persistence, `Handlers` the routes over it, and the other modules prove.
pub mod Store
pub mod Key
pub mod Handlers
pub mod Commits
pub mod History
pub mod Requests
pub mod Persist
pub mod Isolation
pub mod Grown
pub mod Served
pub mod Growth
pub mod Ends
pub mod Limiter
