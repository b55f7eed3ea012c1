-- ===== src/Node.antt =====
-- crates/node: the parts of the node itself that are modelled.
pub mod VerifyChain
pub mod Mempool
