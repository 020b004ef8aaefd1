-- ===== src/Registry.antt =====
-- crates/siltad/src/daemon.rs, the registry of connected sessions.
pub mod Table
pub mod Accounting
pub mod Frame
pub mod Delivery
pub mod Counts
pub mod Conserved
pub mod Redelivery
