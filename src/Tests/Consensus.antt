-- ===== src/Tests/Consensus.antt =====
-- Subsidies, tiers, epochs and payments of crates/consensus.
use fluxd_rust.Prelude.{
  ℕ, ◌+◌, ◌*◌, ◌≤◌, ◌<◌, ◌≡◌, ◌^◌, ◌↔◌, ◌⊎◌, refl, [], replicate, Bool, true, none, some, arith,
}
use fluxd_rust.Prelude.Int.{ℤ, pos, ◌+ℤ◌, ◌*ℤ◌}
use fluxd_rust.Consensus.Money.{coin}
use fluxd_rust.Consensus.Upgrades.{
  Upgrades, UpgradeIndex, base_sprout, test_dummy, lwma, equi144_5, acadia, kamiooka, kamata, flux,
  halving, p2sh_nodes, pon, as_usize, no_activation_height, network_upgrade_state,
  network_upgrade_active, current_epoch, next_epoch,
}
use fluxd_rust.Consensus.Upgrades.Epochs.{current_epoch_last_active}
use fluxd_rust.Consensus.Params.{ConsensusParams, FluxnodeParams, SwapPoolParams, mainnet}
use fluxd_rust.Consensus.Rewards.{
  block_subsidy, fluxnode_subsidy, min_dev_fund_amount, fluxnode_collateral_matches_tier,
  fluxnode_tier_from_collateral, is_swap_pool_interval, payment_among,
}
use fluxd_rust.Consensus.Rewards.Subsidy.{block_subsidy_falls}
use fluxd_rust.Consensus.Rewards.Payouts.{payouts_conserve}
use fluxd_rust.Consensus.Rewards.Tiers.{fluxnode_tier_from_collateral_iff}

-- The activation heights of the main network.
abbrev pub activation : UpgradeIndex → ℤ
activation base_sprout = pos 0
activation test_dummy = no_activation_height
activation lwma = pos 125_000
activation equi144_5 = pos 125_100
activation acadia = pos 250_000
activation kamiooka = pos 372_500
activation kamata = pos 558_000
activation flux = pos 835_554
activation halving = pos 1_076_532
activation p2sh_nodes = pos 1_549_500
activation pon = pos 2_020_000

abbrev pub main_upgrades : Upgrades
main_upgrades idx = record {
  protocol_version = pos 170_002;
  activation_height = activation idx;
  hash_activation_block = none;
}

abbrev pub main_params : ConsensusParams
main_params = record {
  network = mainnet;
  hash_genesis_block = [];
  genesis_time = 1_516_980_000;
  emergency = record {
    public_keys = [];
    collateral_hash = replicate 32 0x45;
    min_signatures = pos 2;
  };
  subsidy_slow_start_interval = pos 5_000;
  subsidy_halving_interval = pos 655_350;
  upgrades = main_upgrades;
  pow_limit = [];
  pon_limit = [];
  pon_start_limit = [];
  pow_allow_min_difficulty_after_height = none;
  digishield_averaging_window = pos 17;
  digishield_max_adjust_down = pos 32;
  digishield_max_adjust_up = pos 16;
  pow_target_spacing = pos 120;
  pon_target_spacing = pos 30;
  pon_difficulty_window = pos 30;
  pon_subsidy_reduction_interval = pos 1_051_200;
  pon_max_reductions = pos 20;
  pon_initial_subsidy = pos 14;
  zawy_lwma_averaging_window = pos 60;
  eh_epoch_fade_length = 11;
}

active_pon : network_upgrade_active (pos 2_020_000) main_upgrades pon ≡ true
unfolding network_upgrade_active network_upgrade_state
active_pon = refl

abbrev no_share : Bool → ℕ → ℤ → ℤ
no_share doubled tier value = pos 0

payouts_conserve_example :
    (v d : ℕ) × (block_subsidy (pos 2_020_000) main_params ≡ pos v)
    × (min_dev_fund_amount no_share (pos 2_020_000) main_params ≡ pos d)
    × (fluxnode_subsidy no_share (pos 2_020_000) (pos v) 1 main_params
          +ℤ fluxnode_subsidy no_share (pos 2_020_000) (pos v) 2 main_params
          +ℤ fluxnode_subsidy no_share (pos 2_020_000) (pos v) 3 main_params
          +ℤ pos d
        ≡ pos v)
    × (v ≤ 28 * d)
    × (28 * d < v + 84)
    × (v * (9 * coin) < 2 ^ 63)
payouts_conserve_example =
    payouts_conserve (pos 2_020_000) main_params 14 refl active_pon no_share 1_051_200 (omega arith)
      refl (omega arith)

block_subsidy_falls_example :
    (v w : ℕ) × (block_subsidy (pos 2_020_000) main_params ≡ pos v)
    × (block_subsidy (pos 4_000_000) main_params ≡ pos w)
    × (w ≤ v)
    × (v ≤ 14 * coin)
block_subsidy_falls_example =
    block_subsidy_falls (pos 2_020_000) (pos 4_000_000) main_params 14 1_051_200 refl refl
      (omega arith) (omega arith) active_pon (omega arith)

abbrev main_fluxnodes : FluxnodeParams
main_fluxnodes = record {
  start_payments_height = pos 560_000;
  benchmarking_public_keys = [];
  p2sh_public_keys = [];
  cumulus_transition_start = pos 1_076_532;
  cumulus_transition_end = pos 1_086_612;
  nimbus_transition_start = pos 1_081_572;
  nimbus_transition_end = pos 1_092_372;
  stratus_transition_start = pos 1_087_332;
  stratus_transition_end = pos 1_097_412;
}

fluxnode_tier_from_collateral_iff_example :
    (fluxnode_tier_from_collateral (pos 1_080_000) (pos (1_000 * coin)) main_fluxnodes ≡ some 1) ↔ (
      fluxnode_collateral_matches_tier (pos 1_080_000) (pos (1_000 * coin)) 1 main_fluxnodes ≡ true)
fluxnode_tier_from_collateral_iff_example =
    fluxnode_tier_from_collateral_iff (pos 1_080_000) (pos (1_000 * coin)) 1 main_fluxnodes

abbrev main_swap_pool : SwapPoolParams
main_swap_pool = record {
  start_height = pos 837_714;
  amount = pos (22_000_000 * coin);
  interval = pos 21_600;
  max_times = pos 10;
}

second_payment : is_swap_pool_interval (pos 859_314) main_swap_pool ≡ true
unfolding is_swap_pool_interval payment_among ◌+ℤ◌ ◌*ℤ◌
second_payment = refl

current_epoch_last_active_example :
    ((idx : UpgradeIndex)
      → network_upgrade_active (pos 300_000) main_upgrades idx ≡ true
      → as_usize idx ≤ as_usize (current_epoch (pos 300_000) main_upgrades))
    × ((current_epoch (pos 300_000) main_upgrades ≡ base_sprout)
        ⊎ (network_upgrade_active
              (pos 300_000)
              main_upgrades
              (current_epoch (pos 300_000) main_upgrades)
            ≡ true))
current_epoch_last_active_example = current_epoch_last_active (pos 300_000) main_upgrades

next_epoch_kamiooka : next_epoch (pos 300_000) main_upgrades ≡ some kamiooka
unfolding next_epoch network_upgrade_state
next_epoch_kamiooka = refl
