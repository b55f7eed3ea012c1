-- ===== src/Lib.antt =====
-- fluxd-rust: a Flux node in Rust, and this library of definitions and theorems about it.
--
-- The node keeps its chain in flat files and a key-value store, validates blocks by the consensus
-- rules and shares everything in one binary encoding. The crates that carry this are, from the
-- bottom up, with the files here that model them (paths below fluxd_rust/crates/):
--
--   Primitives/Bytes        little-endian bytes of an integer and the casts between signed and
--                           unsigned integers, as the standard library of Rust has them
--   Primitives/Encoding     primitives/src/encoding.rs: `Encoder` (each `write_*` takes the encoder
--                           and returns it) and `Decoder` (each `read_*` is a `Reader`, which
--                           returns a value and the decoder behind it, or a `DecodeError`); below
--                           it Vectors, `write_vec` and `read_vec` of transaction.rs
--   Primitives/OutPoint     primitives/src/outpoint.rs
--   Primitives/Merkle       primitives/src/merkleblock.rs: `from_txids` and `extract_matches` of the partial
--                           Merkle tree
--   Primitives/FluxnodeTransaction
--                           primitives/src/transaction.rs: the payloads of fluxnode transactions, the
--                           bits of their versions, and their encoding and decoding
--   Primitives/Transaction  primitives/src/transaction.rs: `Transaction` and its parts, `encode_with_mode`,
--                           `decode_from` and `txid` in all formats
--   Primitives/Block        primitives/src/block.rs: `BlockHeader` and `Block`
--   Storage/Batch           storage/src/lib.rs: `Column`, `WriteBatch` and the trait `KeyValueStore`
--   Storage/Memory          storage/src/memory.rs: `MemoryStore`, its `BTreeMap` as a list of entries
--   Chainstate/UtxoSet, AnchorSet, NullifierSet, TxIndex
--                           the sets of chainstate/src/{utxo,anchors,txindex}.rs over any store
--   Chainstate/FlatFiles    chainstate/src/flatfiles.rs: `append`, `read`, `remove_file` and
--                           `locate_active_file` of `FlatFileStore`
--   Chainstate/FileLocation, FileMeta, BlockIndex, Utxo, Undo
--                           the records of chainstate/src/{flatfiles,filemeta,blockindex,utxo,undo}.rs,
--                           with `encode` and `decode` as they stand there
--   Chainstate/MerkleRoot   chainstate/src/validation.rs: `merkle_root`
--   Fluxnode/Record         fluxnode/src/storage.rs: `FluxnodeRecord`
--   Fluxnode/Cache          fluxnode/src/cache.rs: `apply_fluxnode_tx` and `lookup_operator_pubkey`; below
--                           it Starts and Confirms, on the two kinds of transactions
--   Node/VerifyChain        node/src/verify_chain.rs: `compute_merkle_root`
--   Node/Mempool            node/src/mempool.rs: `Mempool` with `insert`, `remove`, `remove_with_descendants`,
--                           `prioritise_transaction` and the evictions; below it
--                           Orphans, the transactions that wait for a parent
--   Consensus/Money, Upgrades, Params, Rewards
--                           consensus/src/{money,upgrades,params,rewards}.rs
--   Pon/Slot                pon/src/slot.rs
--   Pon/Validation, Emergency
--                           pon/src/validation.rs: `validate_pon_header` and `validate_pon_signature`,
--                           and the emergency blocks that several keys sign
--   Fluxnode/Validation     fluxnode/src/validation.rs: `validate_fluxnode_tx`, the tiers and keys of a
--                           height or time
--   Pow/Compact, Headers    pow/src/difficulty.rs: compact targets and `block_proof`, the heights of a
--                           chain of headers
--   Pow/Words, Averages, NextWork
--                           pow/src/difficulty.rs: the arithmetic of `U256`, the three averages, and
--                           `get_next_work_required`
--
-- An undo record holds unspent outputs and fluxnode records, and the flat files hold what these
-- encodings write. The sets write into batches and read from a store through the record
-- `KeyValueStore`, with `StoreLaws` for what they rely on, which the store in memory fills. A block
-- index entry holds the locations that `append` returns. The rewards read the upgrade schedule.
--
-- Integers are natural numbers, with `% 2 ^ w` where an unsigned operation of the source can wrap,
-- and ℤ for the signed types; bytes are numbers, and a proof that needs them below 256 says so.
-- The lock of `FlatFileStore` makes each operation one step. The directory of a store is a function
-- from file ids to contents, and `append` takes the outcome of its writes as an argument.
-- `U256` of a third-party crate is a number below 2 ^ 256. `String::from_utf8` and the floating
-- point shares of the rewards before PON are arguments of the definitions that use them.
-- The signed integers of the rewards are unbounded here: theorems about them have the ranges in which
-- the source neither overflows nor divides by zero among their hypotheses.
-- The mempool's `HashMap`s are association lists (Prelude/HashMap), its operations steps on a record
-- that each of them returns; `f64` is a type parameter with its sum.
-- Some loops run on fuel: the count of bytes in `u256_to_compact` has 32 rounds, since 2 ^ 256 is
-- 256 ^ 32 and each round takes one byte off, and `trailing_zeros` one round for each bit of a u32.
-- The height of a Merkle tree has 64 rounds, since a width is 0 from height 64 on; the loops over the
-- layers of a Merkle root have one round for each transaction, since a layer is shorter than the one
-- below it; the visit of a transaction's descendants has one level for each key of the map of children
-- and one more, which a theorem shows to be enough. The loop that makes room for an orphan has one round
-- for each orphan, since each takes one away.
--
-- Transactions, blocks and the payloads of fluxnodes are written and read over the same encoder and
-- decoder, the identifier of a transaction is the hash of its encoding without signatures, and the
-- checks of a proof-of-node header stand on the hash of the header, the slots and the compact targets.
-- The functions of secp256k1, `sha256d`, `String::from_utf8` and `str::trim` are arguments of the
-- definitions that call them. An operation of `U256` or an index that panics gives `Stop.panicked`.
--
-- Not modelled: script, shielded and log, the rest of node, the policy of the mempool, the store on
-- disk, addresses, the proof-of-work checks of pow/src/validation.rs with Equihash, the indexes by
-- address and spending, and the connecting and disconnecting of blocks in chainstate/src/state.rs,
-- which depends on most of these. Input and output, the third-party hash functions, signatures and
-- proof systems are left out for good.
pub mod Prelude
pub mod Primitives
pub mod Storage
pub mod Chainstate
pub mod Fluxnode
pub mod Consensus
pub mod Pow
pub mod Pon
pub mod Node
pub mod Tests
