-- ===== src/Inbound.antt =====
-- crates/siltad/src/matrix.rs and content.rs: what comes from the rooms.
pub mod Content
pub mod Types
pub mod Handlers
pub mod Admission
pub mod Once
