-- ===== src/Server.antt =====
-- crates/siltad/src/server.rs: a connection, from its handshake to its end.
pub mod Handshake
pub mod Connection
pub mod Loop
pub mod Session
pub mod Admission
pub mod Answered
pub mod Ended
pub mod Files
pub mod RoundTrip
pub mod Writing
