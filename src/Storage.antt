-- ===== src/Storage.antt =====
-- crates/storage: the interface of the key-value stores, write batches, and the store in memory.
pub mod Batch
pub mod Memory
