-- ===== src/Daemon.antt =====
-- crates/siltad/src/daemon.rs: the daemon's shared state and its typing indicators.
pub mod Typing
pub mod State
