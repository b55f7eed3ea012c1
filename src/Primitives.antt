-- ===== src/Primitives.antt =====
-- crates/primitives: the wire encoding and the types that are written in it.
pub mod Bytes
pub mod Encoding
pub mod OutPoint
pub mod Merkle
pub mod Transaction
pub mod Block
pub mod FluxnodeTransaction
