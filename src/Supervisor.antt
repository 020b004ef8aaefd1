-- ===== src/Supervisor.antt =====
-- crates/silta-session/src/lib.rs and state.rs: the supervisor of one Claude Code session.
pub mod Contract
pub mod Types
pub mod State
pub mod Plan
pub mod Methods
pub mod Loop
pub mod Restart
pub mod Ending
pub mod Frozen
pub mod Channel
pub mod ChannelFile
