-- ===== src/Pow.antt =====
-- crates/pow: proof of work.
pub mod Compact
pub mod Headers
pub mod Words
pub mod Averages
pub mod NextWork
