-- ===== src/FlStudio.antt =====
-- crates/auru-pm-kernel/src/flstudio: the `.flp` container, and its tree.
pub mod Varint
pub mod Events
pub mod Texts
pub mod Tree
