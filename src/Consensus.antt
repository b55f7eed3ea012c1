-- ===== src/Consensus.antt =====
-- crates/consensus: monetary rules, network upgrades and the parameters of a network.
pub mod Money
pub mod Upgrades
pub mod Params
pub mod Rewards
