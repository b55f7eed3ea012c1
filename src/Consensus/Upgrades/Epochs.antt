-- ===== src/Consensus/Upgrades/Epochs.antt =====
-- The epoch of upgrades.rs is the last active upgrade, and the next one the first that is pending.
use fluxd_rust.Prelude.{
  ◌≤◌, ◌≡◌, ◌≢◌, refl, ◌⊎◌, inl, inr, List, [], ◌∷◌, true, some, Bool-cases, arith,
}
use fluxd_rust.Prelude.Int.{ℤ, pos, ◌≤ℤ◌, ◌<ℤ◌, ltb_ℤ}
use fluxd_rust.Consensus.Upgrades.{
  UpgradeIndex, base_sprout, as_usize, later_upgrades, all_upgrades_rev, Upgrades, pending,
  network_upgrade_state, network_upgrade_active, first_active, current_epoch, first_pending,
  next_epoch,
}

-- An upgrade that is active at a height is active at every greater height.
pub network_upgrade_active_mono :
    (h k : ℤ) (upgrades : Upgrades) (idx : UpgradeIndex)
    → h ≤ℤ k
    → network_upgrade_active h upgrades idx ≡ true
    → network_upgrade_active k upgrades idx ≡ true
unfolding network_upgrade_active network_upgrade_state
network_upgrade_active_mono h k upgrades idx le on = ground arith

module _ (height : ℤ) (upgrades : Upgrades) where
  current_epoch-ge :
      (idx : UpgradeIndex)
      → network_upgrade_active height upgrades idx ≡ true
      → as_usize idx ≤ as_usize (current_epoch height upgrades)
  unfolding current_epoch first_active
  current_epoch-ge base_sprout on = omega arith
  current_epoch-ge _ on = ground arith

  first_active-active :
      (l : List UpgradeIndex)
      → (first_active height upgrades l ≡ base_sprout)
        ⊎ (network_upgrade_active height upgrades (first_active height upgrades l) ≡ true)
  unfolding first_active
  first_active-active [] = inl refl
  first_active-active (idx ∷ l) = elim (Bool-cases (network_upgrade_active height upgrades idx)) [
    | inl on ↦ rw on (inr on)
    | inr off ↦ rw off (first_active-active l)
  ]

  -- No upgrade behind the current epoch is active, and the current epoch is active itself unless
  -- it is the first.
  pub current_epoch_last_active :
      ((idx : UpgradeIndex)
        → network_upgrade_active height upgrades idx ≡ true
        → as_usize idx ≤ as_usize (current_epoch height upgrades))
      × ((current_epoch height upgrades ≡ base_sprout)
          ⊎ (network_upgrade_active height upgrades (current_epoch height upgrades) ≡ true))
  unfolding current_epoch
  current_epoch_last_active = (current_epoch-ge, first_active-active all_upgrades_rev)

  first_pending-pending :
      (l : List UpgradeIndex) {idx : UpgradeIndex}
      → first_pending height upgrades l ≡ some idx
      → network_upgrade_state height upgrades idx ≡ pending
  unfolding first_pending
  first_pending-pending [] e = cc
  first_pending-pending (i ∷ l) {idx} e = ground (arith, first_pending-pending l {idx = idx})

  next_epoch-le :
      (i : UpgradeIndex) {idx : UpgradeIndex}
      → next_epoch height upgrades ≡ some idx
      → i ≢ base_sprout
      → network_upgrade_state height upgrades i ≡ pending
      → as_usize idx ≤ as_usize i
  unfolding next_epoch first_pending
  next_epoch-le base_sprout e other on = absurd (other refl)
  next_epoch-le _ e other on = ground arith

  next_epoch-pending :
      (idx : UpgradeIndex)
      → next_epoch height upgrades ≡ some idx
      → network_upgrade_state height upgrades idx ≡ pending
  unfolding next_epoch
  next_epoch-pending idx e = elim (Bool-cases (ltb_ℤ height (pos 0))) [
    | inl below ↦ cc (rw below at e)
    | inr above ↦ first_pending-pending later_upgrades (rw above at e)
  ]

  pending-lt :
      (idx : UpgradeIndex)
      → network_upgrade_state height upgrades idx ≡ pending
      → height <ℤ (upgrades idx).activation_height
  unfolding network_upgrade_state
  pending-lt idx e = ground arith

  -- If there is a next epoch, it is a pending upgrade, no other pending one but perhaps the first
  -- stands before it in the list, and its activation height lies above the height asked for.
  next_epoch_first_pending :
      {idx : UpgradeIndex}
      → next_epoch height upgrades ≡ some idx
      → (network_upgrade_state height upgrades idx ≡ pending)
        × ((i : UpgradeIndex)
            → i ≢ base_sprout
            → network_upgrade_state height upgrades i ≡ pending
            → as_usize idx ≤ as_usize i)
        × (height <ℤ (upgrades idx).activation_height)
  next_epoch_first_pending {idx} e =
      (next_epoch-pending idx e, λ i. next_epoch-le i e, pending-lt idx (next_epoch-pending idx e))
