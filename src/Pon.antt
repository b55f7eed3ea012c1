-- ===== src/Pon.antt =====
-- crates/pon: the proof of node.
pub mod Slot
pub mod Validation
pub mod Emergency
