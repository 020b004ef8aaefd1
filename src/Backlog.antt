-- ===== src/Backlog.antt =====
-- crates/silta/src/backlog.rs, the bounded queue of a session that is away.
pub mod Queue
pub mod Order
pub mod Limits
