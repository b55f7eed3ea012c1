-- ===== src/Consensus/Params.antt =====
-- crates/consensus/src/params.rs: the parameters that the modelled rules read. Heights and amounts
-- are integers, and hashes are their 32 bytes.
use fluxd_rust.Prelude.{ℕ, Bool, true, false, Option, List}
use fluxd_rust.Prelude.Int.{ℤ, pos, ◌*ℤ◌, ◌/ℤ◌, ◌-ℤ◌, ◌+ℤ◌}
use fluxd_rust.Consensus.Upgrades.{Upgrades}

pub data Network : Type 0 where
  mainnet testnet regtest : Network

-- `network == Network::Regtest`
abbrev pub is_regtest : Network → Bool
is_regtest mainnet = false
is_regtest testnet = false
is_regtest regtest = true

-- A public key is the bytes of its hexadecimal text.
pub record EmergencyParams : Type 0 where
  pub public_keys : List (List ℕ)
  pub collateral_hash : List ℕ
  pub min_signatures : ℤ

pub record ConsensusParams : Type 0 where
  pub network : Network
  pub hash_genesis_block : List ℕ
  pub genesis_time : ℕ
  pub subsidy_slow_start_interval : ℤ
  pub subsidy_halving_interval : ℤ
  pub upgrades : Upgrades
  pub emergency : EmergencyParams
  pub pow_limit : List ℕ
  pub pon_limit : List ℕ
  pub pon_start_limit : List ℕ
  pub pow_allow_min_difficulty_after_height : Option ℤ
  pub digishield_averaging_window : ℤ
  pub digishield_max_adjust_down : ℤ
  pub digishield_max_adjust_up : ℤ
  pub pow_target_spacing : ℤ
  pub pon_target_spacing : ℤ
  pub pon_difficulty_window : ℤ
  pub pon_subsidy_reduction_interval : ℤ
  pub pon_max_reductions : ℤ
  pub pon_initial_subsidy : ℤ
  pub zawy_lwma_averaging_window : ℤ
  pub eh_epoch_fade_length : ℕ

unfoldable pub subsidy_slow_start_shift : ConsensusParams → ℤ
unfolding ◌/ℤ◌
subsidy_slow_start_shift p = p.subsidy_slow_start_interval /ℤ pos 2

unfoldable pub digishield_averaging_window_timespan : ConsensusParams → ℤ
unfolding ◌*ℤ◌
digishield_averaging_window_timespan p = p.digishield_averaging_window *ℤ p.pow_target_spacing

unfoldable pub digishield_min_actual_timespan : ConsensusParams → ℤ
unfolding digishield_averaging_window_timespan ◌*ℤ◌ ◌/ℤ◌ ◌-ℤ◌
digishield_min_actual_timespan p =
    digishield_averaging_window_timespan p *ℤ (pos 100 -ℤ p.digishield_max_adjust_up) /ℤ pos 100

unfoldable pub digishield_max_actual_timespan : ConsensusParams → ℤ
unfolding digishield_averaging_window_timespan ◌*ℤ◌ ◌/ℤ◌ ◌+ℤ◌
digishield_max_actual_timespan p =
    digishield_averaging_window_timespan p *ℤ (pos 100 +ℤ p.digishield_max_adjust_down) /ℤ pos 100

pub record TimedPublicKey : Type 0 where
  pub key : List ℕ
  pub valid_from : ℕ

pub record FluxnodeParams : Type 0 where
  pub start_payments_height : ℤ
  pub benchmarking_public_keys : List TimedPublicKey
  pub p2sh_public_keys : List TimedPublicKey
  pub cumulus_transition_start : ℤ
  pub cumulus_transition_end : ℤ
  pub nimbus_transition_start : ℤ
  pub nimbus_transition_end : ℤ
  pub stratus_transition_start : ℤ
  pub stratus_transition_end : ℤ

pub record FundingParams : Type 0 where
  pub exchange_height : ℤ
  pub exchange_amount : ℤ
  pub foundation_height : ℤ
  pub foundation_amount : ℤ

pub record SwapPoolParams : Type 0 where
  pub start_height : ℤ
  pub amount : ℤ
  pub interval : ℤ
  pub max_times : ℤ
