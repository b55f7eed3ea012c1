-- ===== src/Consensus/Rewards/Subsidy.antt =====
-- The block subsidy of rewards.rs over the heights.
use fluxd_rust.Prelude.{ℕ, zero, suc, ◌*◌, ◌/◌, ◌≤◌, ◌<◌, ◌^◌, ◌≡◌, true, arith}
use fluxd_rust.Prelude.Int.{ℤ, pos, negsuc, pos_part, ◌/ℤ◌, ◌≤ℤ◌, -ℤ_parts}
use native.Mathlib.Nat.{div-zero, le-div_iff_mul-le, div-mul-le_self}
use fluxd_rust.Consensus.Money.{coin}
use fluxd_rust.Consensus.Upgrades.{network_upgrade_active, UpgradeIndex}
use fluxd_rust.Consensus.Upgrades.Epochs.{network_upgrade_active_mono}
use fluxd_rust.Consensus.Params.{ConsensusParams}
use fluxd_rust.Consensus.Rewards.{reductions, saturating_sub, min_ℤ, block_subsidy}
use fluxd_rust.Consensus.Rewards.Payouts.{reduced, reduced-le, block_subsidy-pon}

reduced_mono : (n v w : ℕ) → v ≤ w → reduced n v ≤ reduced n w
unfolding reduced
reduced_mono zero v w h = h
reduced_mono (suc n) v w h = reduced_mono n (v * 9 / 10) (w * 9 / 10) (omega arith)

-- More rounds leave less.
reduced_anti : (n m v : ℕ) → n ≤ m → reduced m v ≤ reduced n v
unfolding reduced
reduced_anti zero m v h = reduced-le m v
reduced_anti (suc n) zero v h = absurd (omega arith)
reduced_anti (suc n) (suc m) v h = reduced_anti n m (v * 9 / 10) (omega arith)

saturating_sub_mono : (h k a : ℤ) → h ≤ℤ k → saturating_sub h a ≤ℤ saturating_sub k a
saturating_sub_mono h k a le = ground (arith, -ℤ_parts h a, -ℤ_parts k a)

div_mono : (a b i : ℕ) → a ≤ b → a / i ≤ b / i
div_mono a b zero h = rw (div-zero a, div-zero b) (omega arith)
div_mono a b (suc i) h =
    (le-div_iff_mul-le (omega arith)).1 (omega (arith, div-mul-le_self a (suc i)))

quot_mono : (x y : ℤ) (i : ℕ) → x ≤ℤ y → (x /ℤ pos i) ≤ℤ (y /ℤ pos i)
unfolding ◌/ℤ◌
quot_mono (pos a) (pos b) i h = omega (arith, div_mono a b i (omega arith))
quot_mono (pos a) (negsuc b) i h = absurd (omega arith)
quot_mono (negsuc a) (pos b) i h = ground arith
quot_mono (negsuc a) (negsuc b) i h = ground (arith, div_mono (suc b) (suc a) i)

min_mono : (x y m : ℤ) → x ≤ℤ y → pos_part (min_ℤ x m) ≤ pos_part (min_ℤ y m)
min_mono x y m h = ground arith

-- The numbers of rounds at two heights, the second not below the first.
reductions_mono :
    (h k : ℤ) (p : ConsensusParams) (interval : ℕ)
    → p.pon_subsidy_reduction_interval ≡ pos interval
    → h ≤ℤ k
    → reductions h p ≤ reductions k p
unfolding reductions
reductions_mono h k p interval e le =
    let a = (p.upgrades UpgradeIndex.pon).activation_height in
    rw e (
      min_mono (saturating_sub h a /ℤ pos interval) (saturating_sub k a /ℤ pos interval)
        p.pon_max_reductions
        (quot_mono (saturating_sub h a) (saturating_sub k a) interval
          (saturating_sub_mono h k a le)))

-- With an initial subsidy that is not negative and that, nine times over, is within an i64, and with
-- a positive reduction interval, from a height on where PON is active: the subsidy is not negative,
-- at most the initial one, and does not rise with the height.
pub block_subsidy_falls :
    (h k : ℤ) (p : ConsensusParams) (initial interval : ℕ)
    → p.pon_initial_subsidy ≡ pos initial
    → p.pon_subsidy_reduction_interval ≡ pos interval
    → 0 < interval
    → initial * coin * 9 < 2 ^ 63
    → network_upgrade_active h p.upgrades UpgradeIndex.pon ≡ true
    → h ≤ℤ k
    → (v w : ℕ) × (block_subsidy h p ≡ pos v)
      × (block_subsidy k p ≡ pos w)
      × (w ≤ v)
      × (v ≤ initial * coin)
block_subsidy_falls h k p initial interval ei er positive fits on le = (
  reduced (reductions h p) (initial * coin),
  reduced (reductions k p) (initial * coin),
  block_subsidy-pon h p initial ei on,
  block_subsidy-pon k p initial ei
      (network_upgrade_active_mono h k p.upgrades UpgradeIndex.pon le on),
  reduced_anti (reductions h p) (reductions k p) (initial * coin)
      (reductions_mono h k p interval er le),
  reduced-le (reductions h p) (initial * coin),
)
