-- ===== src/Consensus/Rewards/Payouts.antt =====
-- The split of the block subsidy under PON in rewards.rs.
use fluxd_rust.Prelude.{
  ℕ, zero, suc, ◌+◌, ◌-◌, ◌*◌, ◌/◌, ◌^◌, ◌≤◌, ◌<◌, ◌≡◌, refl, ap, Bool, true, some, arith,
}
use fluxd_rust.Prelude.Int.{ℤ, pos, ◌+ℤ◌, ◌-ℤ◌, pos-+, pos-*, pos-/, pos-sub}
use fluxd_rust.Consensus.Money.{coin}
use fluxd_rust.Consensus.Upgrades.{network_upgrade_active, UpgradeIndex}
use fluxd_rust.Consensus.Params.{ConsensusParams}
use fluxd_rust.Consensus.Rewards.{
  reduce, reductions, block_subsidy, pon_share, pon_initial_total, fluxnode_subsidy,
  min_dev_fund_amount,
}

-- The loop of `reduce` over an amount that is not negative.
unfoldable pub reduced : ℕ → ℕ → ℕ
reduced zero v = v
reduced (suc n) v = reduced n (v * 9 / 10)

pub reduced-le : (n v : ℕ) → reduced n v ≤ v
unfolding reduced
reduced-le zero v = omega arith
reduced-le (suc n) v = omega (arith, reduced-le n (v * 9 / 10))

reduce-pos : (n v : ℕ) → reduce n (pos v) ≡ pos (reduced n v)
unfolding reduce reduced
reduce-pos zero v = refl
reduce-pos (suc n) v = rw (reduce, pos-* v 9, pos-/ (v * 9) 10) (reduce-pos n (v * 9 / 10))

pon_share-pos : (v base : ℕ) → pon_share (pos v) (some base) ≡ pos (v * base / pon_initial_total)
unfolding pon_share
pon_share-pos v base = rw (pos-* v base, pos-/ (v * base) pon_initial_total)

-- The shares of a value in whole coins' proportions leave at least a 28th of it.
shares_leave :
    (v : ℕ)
    → (d : ℕ) × (pos v
          -ℤ pos (v * coin / pon_initial_total)
          -ℤ pos (v * (35 * coin / 10) / pon_initial_total)
          -ℤ pos (v * (9 * coin) / pon_initial_total)
        ≡ pos d)
      × (v * coin / pon_initial_total
            + v * (35 * coin / 10) / pon_initial_total
            + v * (9 * coin) / pon_initial_total
            + d
          ≡ v)
      × (v ≤ 28 * d)
      × (28 * d < v + 84)
shares_leave v =
    let a = v * coin / pon_initial_total in
    let b = v * (35 * coin / 10) / pon_initial_total in
    let c = v * (9 * coin) / pon_initial_total in
    (
      v - a - b - c,
      rw (
        pos-sub v a (omega arith),
        pos-sub (v - a) b (omega arith),
        pos-sub (v - a - b) c (omega arith),
      ),
      omega arith,
      omega arith,
      omega arith,
    )

module _ (height : ℤ) (p : ConsensusParams) (initial : ℕ)
    (is_initial : p.pon_initial_subsidy ≡ pos initial)
    (on : network_upgrade_active height p.upgrades UpgradeIndex.pon ≡ true) where
  pub block_subsidy-pon :
      block_subsidy height p ≡ pos (reduced (reductions height p) (initial * coin))
  unfolding block_subsidy
  block_subsidy-pon = rw (on, is_initial, pos-* initial coin) (reduce-pos _ (initial * coin))

  -- Under PON, with an initial subsidy of 0 to 102 coins and a positive reduction interval, the
  -- payouts of the three tiers and the least amount of the development fund add up to the block
  -- subsidy, and that fund is at least a 28th of it and less than three units above that. No
  -- product of the subsidy with a tier's part of 14 coins is outside of an i64.
  pub payouts_conserve :
      (pow_share : Bool → ℕ → ℤ → ℤ) (interval : ℕ)
      → initial ≤ 102
      → p.pon_subsidy_reduction_interval ≡ pos interval
      → 0 < interval
      → (v d : ℕ) × (block_subsidy height p ≡ pos v)
        × (min_dev_fund_amount pow_share height p ≡ pos d)
        × (fluxnode_subsidy pow_share height (pos v) 1 p
              +ℤ fluxnode_subsidy pow_share height (pos v) 2 p
              +ℤ fluxnode_subsidy pow_share height (pos v) 3 p
              +ℤ pos d
            ≡ pos v)
        × (v ≤ 28 * d)
        × (28 * d < v + 84)
        × (v * (9 * coin) < 2 ^ 63)
  unfolding min_dev_fund_amount fluxnode_subsidy
  payouts_conserve pow_share interval small some_interval positive =
      let v = reduced (reductions height p) (initial * coin) in
      let (d, left, sum, lo, hi) = shares_leave v in
      (
        v,
        d,
        block_subsidy-pon,
        rw
            (
              on,
              block_subsidy-pon,
              pon_share-pos v coin,
              pon_share-pos v (35 * coin / 10),
              pon_share-pos v (9 * coin),
            )
            left,
        rw
            (
              on,
              pon_share-pos v coin,
              pon_share-pos v (35 * coin / 10),
              pon_share-pos v (9 * coin),
              pos-+,
              pos-+,
              pos-+,
            )
            (ap pos sum),
        lo,
        hi,
        omega (arith, reduced-le (reductions height p) (initial * coin)),
      )
