-- ===== src/Text.antt =====
-- crates/silta/src/text.rs: long messages in chunks.
pub mod Lines
pub mod Chunks
pub mod Bounds
pub mod Solid
pub mod Kept
