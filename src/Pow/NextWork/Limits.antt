-- ===== src/Pow/NextWork/Limits.antt =====
-- Whatever algorithm of difficulty.rs is chosen, the target stays within the limit.
use fluxd_rust.Prelude.{
  ℕ, ◌-◌, ◌^◌, ◌≤◌, ◌<◌, ◌≡◌, ap, List, [], ◌∷◌, length, drop, Bool, true, false, Option,
  if◌then◌else◌, arith,
}
use fluxd_rust.Prelude.Int.{ℤ, pos, pos_part, ◌+ℤ◌, ◌-ℤ◌, ◌/ℤ◌, ltb_ℤ, leb_ℤ}
use fluxd_rust.Prelude.Result.{Result, ok, map_err, ◌>>=◌, ok-injective, >>=-eq-ok}
use fluxd_rust.Primitives.Bytes.{from_le_bytes, IsBytes, from_le_bytes-lt}
use fluxd_rust.Consensus.Params.{ConsensusParams, digishield_averaging_window_timespan}
use fluxd_rust.Consensus.Upgrades.{lwma, acadia, kamiooka}
use fluxd_rust.Pow.Compact.{u256, compact_to_u256, u256_to_compact, target_to_compact}
use fluxd_rust.Pow.Compact.Truncation.{compact_to_u256-u256_to_compact}
use fluxd_rust.Pow.Headers.{HeaderInfo, ensure_contiguous, eh_epoch_end}
use fluxd_rust.Pow.Words.{Stop, failed, checked_mul, checked_div}
use fluxd_rust.Pow.Averages.{
  as_u64, target_of, limited, median_time_past, digishield_timespan, digishield_next_work_required,
  lwma_next_work_required, lwma_loop, lwma_k, lwma3_loop, lwma3_target, lwma3_next_work_required,
  no_sums, header_at,
}
use fluxd_rust.Pow.NextWork.{
  last_header, total_of, fading, is_late, averaged, next_work, get_next_work_required,
}

-- The bits stand for a target within the limit.
pub record IsWithin (params : ConsensusParams) (bits : ℕ) : Type 0 where
  pub target : ℕ
  pub target_of_bits : compact_to_u256 bits ≡ ok target
  pub target_limit : target ≤ from_le_bytes params.pow_limit

-- The limit of the parameters is 32 bytes.
abbrev pub HasLimit : ConsensusParams → Type 0
HasLimit params = IsBytes params.pow_limit × (length params.pow_limit ≡ 32)

module _ (params : ConsensusParams) (h : HasLimit params) where
  pub limit_range : from_le_bytes params.pow_limit < u256
  limit_range =
      let size : 256 ^ length params.pow_limit ≡ u256 = ap (λ (n : ℕ). 256 ^ n) h.1 in
      omega (arith, size, from_le_bytes-lt params.pow_limit h.0)

  compact-IsWithin :
      (v : ℕ) → v ≤ from_le_bytes params.pow_limit → IsWithin params (u256_to_compact v)
  compact-IsWithin v low =
      let (t, e, close) = compact_to_u256-u256_to_compact v (omega (arith, limit_range)) in
      record { target = t; target_of_bits = e; target_limit = omega (arith, close.below) }

  limited-IsWithin : (next : ℕ) → IsWithin params (limited next params)
  unfolding limited
  limited-IsWithin next = compact-IsWithin _ (ground arith)

  limit-IsWithin : IsWithin params (target_to_compact params.pow_limit)
  unfolding target_to_compact
  limit-IsWithin = compact-IsWithin (from_le_bytes params.pow_limit) (omega arith)

  -- A result is within the limit, if it is one.
  abbrev Within : Result Stop ℕ → Type 0
  Within r = (bits : ℕ) → r ≡ ok bits → IsWithin params bits

  ok-Within : (bits : ℕ) → IsWithin params bits → Within (ok bits)
  ok-Within bits w bits' e = rw (← ok-injective e) w

  -- A chain is within the limit where its last step is.
  bind-Within :
      {A : Type 0} (r : Result Stop A) (next : A → Result Stop ℕ)
      → ((a : A) → Within (next a))
      → Within (r >>= next)
  bind-Within r next each bits e = let (a, p, q) = >>=-eq-ok r next e in each a bits q

  if_Within : (b : Bool) {r s : Result Stop ℕ} → Within r → Within s → Within (if b then r else s)
  if_Within true w v = w
  if_Within false w v = v

  digishield-Within :
      (avg : ℕ) (last_mtp first_mtp : ℤ)
      → Within (digishield_next_work_required avg last_mtp first_mtp params)
  unfolding digishield_next_work_required
  digishield-Within avg last_mtp first_mtp =
      bind-Within (checked_div avg (as_u64 (digishield_averaging_window_timespan params))) _
        λ quotient.
          bind-Within
            (checked_mul quotient (as_u64 (digishield_timespan last_mtp first_mtp params))) _
            λ next. ok-Within _ (limited-IsWithin next)

  lwma-Within :
      (chain : List HeaderInfo) (base_height height : ℤ)
      → Within (lwma_next_work_required chain base_height height params)
  unfolding lwma_next_work_required
  lwma-Within chain base_height height =
      let n = params.zawy_lwma_averaging_window in
      let floor = lwma_k params /ℤ pos 10 in
      if_Within (leb_ℤ height params.zawy_lwma_averaging_window) (ok-Within _ limit-IsWithin) (
        bind-Within
          (lwma_loop chain params (pos_part n) (height -ℤ n +ℤ pos 1 -ℤ base_height) (pos 0)
            (no_sums (pos 0)))
          _
          λ sums.
            let weighted_time =
              if ltb_ℤ sums.weighted_time floor then floor else sums.weighted_time in
            bind-Within (checked_mul sums.sum_target (as_u64 weighted_time)) _
              λ next. ok-Within _ (limited-IsWithin next))

  lwma3_target-IsWithin :
      (next previous_diff : ℕ) → IsWithin params (lwma3_target next previous_diff params)
  unfolding lwma3_target
  lwma3_target-IsWithin next previous_diff = limited-IsWithin _

  lwma3-Within :
      (chain : List HeaderInfo) (base_height height : ℤ)
      → Within (lwma3_next_work_required chain base_height height params)
  unfolding lwma3_next_work_required
  lwma3-Within chain base_height height =
      let n = params.zawy_lwma_averaging_window in
      if_Within (ltb_ℤ height params.zawy_lwma_averaging_window) (ok-Within _ limit-IsWithin) (
        bind-Within (header_at chain (height -ℤ n -ℤ base_height)) _ λ before.
          bind-Within
            (lwma3_loop chain params (pos_part n) (height -ℤ n +ℤ pos 1 -ℤ base_height) (pos 0)
              (no_sums before.time))
            _
            λ sums.
              bind-Within (checked_mul sums.sum_target (as_u64 sums.weighted_time)) _
                λ next. ok-Within _ (lwma3_target-IsWithin next sums.previous_diff))

  fading-Within : (bits : ℕ) (steps : ℤ) → Within (fading bits steps params)
  unfolding fading
  fading-Within bits steps =
      bind-Within (target_of bits) _ λ full_target. ok-Within _ (limited-IsWithin _)

  averaged-Within :
      (chain : List HeaderInfo) (base_height : ℤ) (last : HeaderInfo)
      → Within (averaged chain base_height last params)
  unfolding averaged
  averaged-Within chain base_height last =
      let next_height = last.height +ℤ pos 1 in
      let window = as_u64 params.digishield_averaging_window in
      let start = length chain - window in
      bind-Within (total_of 0 (drop start chain)) _ λ total.
        bind-Within (checked_div total window) _ λ avg.
          if_Within (ltb_ℤ next_height (params.upgrades lwma).activation_height)
            (bind-Within (median_time_past chain (length chain - 1)) _ λ last_mtp.
              bind-Within (median_time_past chain (start - 1)) _
                λ first_mtp. digishield-Within avg last_mtp first_mtp)
            (if_Within (ltb_ℤ next_height (params.upgrades acadia).activation_height)
              (lwma-Within chain base_height last.height)
              (lwma3-Within chain base_height last.height))

  next_work-Within :
      (first : HeaderInfo) (rest : List HeaderInfo) (next_block_time : Option ℤ)
      → Within (next_work first rest next_block_time params)
  unfolding next_work
  next_work-Within first rest next_block_time =
      let last = last_header first rest in
      let limit = ok-Within _ limit-IsWithin in
      if_Within _ limit (
        if_Within _
          (bind-Within (lwma3_next_work_required (first ∷ rest) first.height last.height params) _
            λ bits. fading-Within bits (eh_epoch_end params kamiooka +ℤ pos 61 -ℤ last.height))
          (if_Within (is_late last next_block_time params) limit
            (if_Within _ limit (averaged-Within (first ∷ rest) first.height last))))

-- With a limit in the parameters, bits that are required of the header after any chain, at any
-- time, stand for a target, and it is not above that limit.
pub get_next_work_required-IsWithin :
    (chain : List HeaderInfo) (next_block_time : Option ℤ) (params : ConsensusParams) (bits : ℕ)
    → HasLimit params
    → get_next_work_required chain next_block_time params ≡ ok bits
    → IsWithin params bits
unfolding get_next_work_required
get_next_work_required-IsWithin [] next_block_time params bits h =
    ok-Within params h _ (limit-IsWithin params h) bits
get_next_work_required-IsWithin (first ∷ rest) next_block_time params bits h =
    bind-Within params h (map_err failed (ensure_contiguous first rest)) _
      (λ checked. next_work-Within params h first rest next_block_time) bits
