-- ===== src/Config.antt =====
-- crates/silta/src/config.rs: the registry of people and sessions, its validation and the routing
-- derived from it.
pub mod Types
pub mod Validate
pub mod Routing
pub mod Indices
pub mod Answers
pub mod Privacy
pub mod Unique
