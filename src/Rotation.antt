-- ===== src/Rotation.antt =====
-- crates/silta-session/src/rotation.rs, the rotation state machine.
pub mod Types
pub mod Tracker
pub mod Invariant
pub mod Run
pub mod Protocol
pub mod Refines
pub mod Deadlines
pub mod Outputs
pub mod Gap
