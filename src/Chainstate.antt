-- ===== src/Chainstate.antt =====
-- crates/chainstate: the records that the chain state keeps, and the files of blocks and undo data.
pub mod MerkleRoot
pub mod Utxo
pub mod FileLocation
pub mod FlatFiles
pub mod FileMeta
pub mod BlockIndex
pub mod Undo
pub mod UtxoSet
pub mod AnchorSet
pub mod NullifierSet
pub mod TxIndex
