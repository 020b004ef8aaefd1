-- ===== src/Transfer.antt =====
-- crates/silta/src/transfer.rs: files over the socket, their safe names and their receiver.
pub mod Text
pub mod Names
pub mod SafeNames
pub mod Disk
pub mod Receiver
pub mod Writes
pub mod Ops
pub mod Sizes
pub mod Send
pub mod Reading
pub mod Contents
