-- ===== src/Consensus/Rewards.antt =====
-- crates/consensus/src/rewards.rs: the block subsidy, the payouts to fluxnodes and the funds.
-- Amounts are integers of the source's i64, in whose range the theorems' hypotheses keep them: a
-- product beyond it, and a division by an interval of zero, on which the source panics, have here
-- the value that the integers give.
pub mod Subsidy
pub mod Payouts
pub mod Tiers
pub mod SwapPool
use fluxd_rust.Prelude.{
  ℕ, zero, suc, ◌+◌, ◌-◌, ◌*◌, ◌/◌, ◌^◌, Bool, true, false, ◌||◌, Option, none, some, if◌then◌else◌,
  ◌==◌,
}
use fluxd_rust.Prelude.Int.{ℤ, pos, negsuc, pos_part, ◌+ℤ◌, ◌-ℤ◌, ◌*ℤ◌, ◌/ℤ◌, leb_ℤ, ltb_ℤ, eq_ℤ}
use fluxd_rust.Consensus.Money.{coin}
use fluxd_rust.Consensus.Upgrades.{network_upgrade_active, UpgradeIndex}
use fluxd_rust.Consensus.Params.{
  ConsensusParams, FluxnodeParams, FundingParams, SwapPoolParams, subsidy_slow_start_shift,
}

-- `i32::saturating_sub`
abbrev pub saturating_sub : ℤ → ℤ → ℤ
saturating_sub a b =
    let d = a -ℤ b in
    if ltb_ℤ (pos (2 ^ 31 - 1)) d
    then pos (2 ^ 31 - 1)
    else if ltb_ℤ d (negsuc (2 ^ 31 - 1))
    then negsuc (2 ^ 31 - 1)
    else d

abbrev pub min_ℤ : ℤ → ℤ → ℤ
min_ℤ a b = if ltb_ℤ b a then b else a

-- `for _ in 0..reductions { subsidy = subsidy * 9 / 10; }`
unfoldable pub reduce : ℕ → ℤ → ℤ
reduce zero subsidy = subsidy
reduce (suc n) subsidy = reduce n (subsidy *ℤ pos 9 /ℤ pos 10)

-- The number of rounds of that loop.
unfoldable pub reductions : ℤ → ConsensusParams → ℕ
unfolding ◌-ℤ◌ ◌/ℤ◌
reductions height p =
    let activation_height = (p.upgrades UpgradeIndex.pon).activation_height in
    let blocks_since_pon = saturating_sub height activation_height in
    let years_elapsed = blocks_since_pon /ℤ p.pon_subsidy_reduction_interval in
    pos_part (min_ℤ years_elapsed p.pon_max_reductions)

-- `subsidy >>= halvings`, for a subsidy that is not negative and less than 64 halvings.
unfoldable pub shift_right : ℤ → ℤ → ℤ
unfolding ◌/ℤ◌
shift_right subsidy halvings = subsidy /ℤ pos (2 ^ pos_part halvings)

unfoldable pub pow_subsidy : ℤ → ConsensusParams → ℤ
unfolding ◌*ℤ◌ ◌/ℤ◌ ◌+ℤ◌ ◌-ℤ◌ shift_right subsidy_slow_start_shift
pow_subsidy height p =
    let subsidy = pos (150 * coin) in
    let halvings = (height -ℤ subsidy_slow_start_shift p) /ℤ p.subsidy_halving_interval in
    if eq_ℤ height (pos 1)
    then pos (13_020_000 * coin)
    else if ltb_ℤ height (p.subsidy_slow_start_interval /ℤ pos 2)
    then subsidy /ℤ p.subsidy_slow_start_interval *ℤ height
    else if ltb_ℤ height p.subsidy_slow_start_interval
    then subsidy /ℤ p.subsidy_slow_start_interval *ℤ (height +ℤ pos 1)
    else if leb_ℤ (pos 64) halvings
    then pos 0
    else if leb_ℤ (pos 2) halvings
    then shift_right subsidy (pos 2)
    else shift_right subsidy halvings

unfoldable pub block_subsidy : ℤ → ConsensusParams → ℤ
block_subsidy height p =
    if network_upgrade_active height p.upgrades UpgradeIndex.pon
    then reduce (reductions height p) (p.pon_initial_subsidy *ℤ pos coin)
    else pow_subsidy height p

-- The part of 14 coins that each tier's node gets.
abbrev pub pon_initial_total : ℕ
pon_initial_total = 14 * coin

abbrev pub pon_base : ℕ → Option ℕ
pon_base tier =
    if tier == 1
    then some coin
    else if tier == 2
    then some (35 * coin / 10)
    else if tier == 3
    then some (9 * coin)
    else none

unfoldable pub pon_share : ℤ → Option ℕ → ℤ
pon_share block_value none = pos 0
pon_share block_value (some base) = block_value *ℤ pos base /ℤ pos pon_initial_total

-- The share of a tier before PON is computed in floating point: `pow_share doubled tier value` is
-- `(value as f64 * (percentage * multiple)) as i64`, where the multiple is 2 if `doubled`.
module _ (pow_share : Bool → ℕ → ℤ → ℤ) where
  unfoldable pub fluxnode_subsidy : ℤ → ℤ → ℕ → ConsensusParams → ℤ
  fluxnode_subsidy height block_value tier p =
      if network_upgrade_active height p.upgrades UpgradeIndex.pon
      then pon_share block_value (pon_base tier)
      else if tier == 1 || tier == 2 || tier == 3
      then pow_share (network_upgrade_active height p.upgrades UpgradeIndex.flux) tier block_value
      else pos 0

  unfoldable pub min_dev_fund_amount : ℤ → ConsensusParams → ℤ
  min_dev_fund_amount height p =
      let block_value = block_subsidy height p in
      let cumulus = fluxnode_subsidy height block_value 1 p in
      let nimbus = fluxnode_subsidy height block_value 2 p in
      let stratus = fluxnode_subsidy height block_value 3 p in
      if network_upgrade_active height p.upgrades UpgradeIndex.pon
      then block_value -ℤ cumulus -ℤ nimbus -ℤ stratus
      else pos 0

abbrev v1_collateral : ℕ → ℕ
v1_collateral tier =
    if tier == 1 then 10_000 * coin else if tier == 2 then 25_000 * coin else 100_000 * coin

abbrev v2_collateral : ℕ → ℕ
v2_collateral tier =
    if tier == 1 then 1_000 * coin else if tier == 2 then 12_500 * coin else 40_000 * coin

-- One arm of the match: the old amount, either, or the new one.
unfoldable pub matches_window : ℤ → ℤ → ℤ → ℤ → ℕ → Bool
matches_window height amount start end' tier =
    if ltb_ℤ height start
    then eq_ℤ amount (pos (v1_collateral tier))
    else if ltb_ℤ height end'
    then eq_ℤ amount (pos (v1_collateral tier)) || eq_ℤ amount (pos (v2_collateral tier))
    else eq_ℤ amount (pos (v2_collateral tier))

unfoldable pub fluxnode_collateral_matches_tier : ℤ → ℤ → ℕ → FluxnodeParams → Bool
unfolding matches_window
fluxnode_collateral_matches_tier height amount tier p =
    if tier == 1
    then matches_window height amount p.cumulus_transition_start p.cumulus_transition_end 1
    else if tier == 2
    then matches_window height amount p.nimbus_transition_start p.nimbus_transition_end 2
    else if tier == 3
    then matches_window height amount p.stratus_transition_start p.stratus_transition_end 3
    else false

-- The loop over the tiers 1, 2 and 3.
unfoldable pub fluxnode_tier_from_collateral : ℤ → ℤ → FluxnodeParams → Option ℕ
unfolding fluxnode_collateral_matches_tier
fluxnode_tier_from_collateral height amount p =
    if fluxnode_collateral_matches_tier height amount 1 p
    then some 1
    else if fluxnode_collateral_matches_tier height amount 2 p
    then some 2
    else if fluxnode_collateral_matches_tier height amount 3 p
    then some 3
    else none

unfoldable pub exchange_fund_amount : ℤ → FundingParams → ℤ
exchange_fund_amount height f = if eq_ℤ height f.exchange_height then f.exchange_amount else pos 0

unfoldable pub foundation_fund_amount : ℤ → FundingParams → ℤ
foundation_fund_amount height f =
    if eq_ℤ height f.foundation_height then f.foundation_amount else pos 0

-- The rounds `i..i + n` of the loop over `0..max_times`.
unfoldable pub payment_among : ℕ → ℕ → ℤ → SwapPoolParams → Bool
payment_among zero i height s = false
payment_among (suc n) i height s =
    let later = payment_among n (i + 1) height s in
    if eq_ℤ height (s.start_height +ℤ s.interval *ℤ pos i) then true else later

-- The last height of a payment is taken to be an i64.
unfoldable pub is_swap_pool_interval : ℤ → SwapPoolParams → Bool
is_swap_pool_interval height s =
    if ltb_ℤ height s.start_height
    then false
    else if ltb_ℤ (s.start_height +ℤ s.interval *ℤ s.max_times) height
    then false
    else payment_among (pos_part s.max_times) 0 height s

unfoldable pub swap_pool_amount : ℤ → SwapPoolParams → ℤ
unfolding is_swap_pool_interval
swap_pool_amount height s = if is_swap_pool_interval height s then s.amount else pos 0
