-- ===== src/Watch.antt =====
-- crates/silta/src/alert.rs: the daemon's alerts to the owner.
pub mod Types
pub mod Alerts
pub mod Life
pub mod Ledger
