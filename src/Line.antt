-- ===== src/Line.antt =====
-- crates/silta/src/line.rs: lines framed on a byte stream, with a cap on their length.
pub mod Reader
pub mod Framing
