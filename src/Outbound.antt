-- ===== src/Outbound.antt =====
-- crates/siltad/src/outbound.rs: what sessions post, and what they read of a room.
pub mod Matrix
pub mod Sending
pub mod Commands
pub mod Permitted
pub mod History
pub mod Readers
pub mod Disclosed
pub mod Reading
pub mod Answers
