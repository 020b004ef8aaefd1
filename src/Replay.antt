-- ===== src/Replay.antt =====
-- crates/silta/src/replay.rs and the watermarks of crates/siltad/src/daemon.rs: which messages
-- the daemon delivers after a start.
pub mod Marks
pub mod Forward
