-- ===== src/Consensus/Rewards/Tiers.antt =====
-- The tier of a collateral in rewards.rs.
use fluxd_rust.Prelude.{ℕ, ◌≤◌, ◌≡◌, ◌↔◌, ◌⊎◌, true, some, arith}
use fluxd_rust.Prelude.Int.{ℤ, pos, eq_ℤ-true}
use fluxd_rust.Consensus.Params.{FluxnodeParams}
use fluxd_rust.Consensus.Rewards.{
  matches_window, fluxnode_collateral_matches_tier, fluxnode_tier_from_collateral, v1_collateral,
  v2_collateral,
}

matches_window-amount :
    (height amount start end' : ℤ) (tier : ℕ)
    → matches_window height amount start end' tier ≡ true
    → (amount ≡ pos (v1_collateral tier)) ⊎ (amount ≡ pos (v2_collateral tier))
unfolding matches_window
matches_window-amount height amount start end' tier h = ground (
  arith,
  eq_ℤ-true amount (pos (v1_collateral tier)),
  eq_ℤ-true amount (pos (v2_collateral tier)),
)

-- A collateral that matches a tier at some height has one of the tier's two amounts.
matches_tier-amount :
    (height amount : ℤ) (tier : ℕ) (p : FluxnodeParams)
    → fluxnode_collateral_matches_tier height amount tier p ≡ true
    → (1 ≤ tier)
      × (tier ≤ 3)
      × ((amount ≡ pos (v1_collateral tier)) ⊎ (amount ≡ pos (v2_collateral tier)))
unfolding fluxnode_collateral_matches_tier
matches_tier-amount height amount tier p h = ground (
  arith,
  matches_window-amount height amount p.cumulus_transition_start p.cumulus_transition_end 1,
  matches_window-amount height amount p.nimbus_transition_start p.nimbus_transition_end 2,
  matches_window-amount height amount p.stratus_transition_start p.stratus_transition_end 3,
)

-- The tier that is found for a collateral is the one tier that the collateral matches.
pub fluxnode_tier_from_collateral_iff :
    (height amount : ℤ) (tier : ℕ) (p : FluxnodeParams)
    → (fluxnode_tier_from_collateral height amount p ≡ some tier)
      ↔ (fluxnode_collateral_matches_tier height amount tier p ≡ true)
unfolding fluxnode_tier_from_collateral
fluxnode_tier_from_collateral_iff height amount tier p = (
  λ h. ground arith,
  λ h. ground (
    arith,
    matches_tier-amount height amount tier p,
    matches_tier-amount height amount 1 p,
    matches_tier-amount height amount 2 p,
    matches_tier-amount height amount 3 p,
  ),
)
