-- ===== src/Tests.antt =====
-- Runs of the modelled code at fixed inputs, and the theorems at such inputs.
mod Primitives
mod Transactions
mod Emergency
mod Payloads
mod Targets
mod Chainstate
mod Records
mod Consensus
mod Pow
mod Storage
mod Pon
mod Headers
mod Merkle
mod Mempool
mod Orphans
mod Cache
