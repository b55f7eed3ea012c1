-- ===== src/Fluxnode.antt =====
-- crates/fluxnode: the records of the service nodes.
pub mod Record
pub mod Cache
pub mod Validation
