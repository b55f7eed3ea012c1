-- ===== src/Pow/Averages.antt =====
-- crates/pow/src/difficulty.rs: the three averages that the next target is computed from.
-- Heights are i32 and times u32 where they come from, so the sums in i64 are exact; a cast of a
-- number that is not negative keeps it.
use fluxd_rust.Prelude.{
  ℕ, zero, suc, ◌+◌, ◌-◌, ◌/◌, ◌^◌, List, [], ◌∷◌, length, get_elem?, take, drop, map, none, some,
  if◌then◌else◌, ltb, ◌==◌,
}
use fluxd_rust.Prelude.Int.{ℤ, pos, negsuc, pos_part, ◌+ℤ◌, ◌-ℤ◌, ◌*ℤ◌, ◌/ℤ◌, ltb_ℤ, leb_ℤ}
use fluxd_rust.Prelude.Result.{Result, ok, err, map_err, ◌>>=◌}
use fluxd_rust.Primitives.Bytes.{from_le_bytes, as_unsigned}
use fluxd_rust.Consensus.Params.{
  ConsensusParams, digishield_averaging_window_timespan, digishield_min_actual_timespan,
  digishield_max_actual_timespan,
}
use fluxd_rust.Pow.Compact.{compact_to_u256, u256_to_compact, target_to_compact}
use fluxd_rust.Pow.Headers.{HeaderInfo, compact}
use fluxd_rust.Pow.Words.{
  Stop, failed, panicked, checked_mul, checked_div, saturating_add, mul_div_u256,
}

-- `compact_to_u256(bits)?`
unfoldable pub target_of : ℕ → Result Stop ℕ
unfolding compact_to_u256
target_of bits = map_err (λ e. failed (compact e)) (compact_to_u256 bits)

-- `as u64` and `as usize`
abbrev pub as_u64 : ℤ → ℕ
as_u64 z = as_unsigned (2 ^ 64) z

-- `if next > pow_limit { next = pow_limit; }` and the compact form.
unfoldable pub limited : ℕ → ConsensusParams → ℕ
unfolding u256_to_compact
limited next params =
    let pow_limit = from_le_bytes params.pow_limit in
    u256_to_compact (if ltb pow_limit next then pow_limit else next)

-- `chain[idx as usize]`, which panics out of bounds.
abbrev pub header_at : List HeaderInfo → ℤ → Result Stop HeaderInfo
header_at chain (negsuc n) = err panicked
header_at chain (pos n) = elim (get_elem? chain n) [ some header ↦ ok header | none ↦ err panicked ]

-- The result of `sort_unstable` on integers, whatever its method.
insert_time : ℤ → List ℤ → List ℤ
insert_time t [] = t ∷ []
insert_time t (u ∷ us) = let later = insert_time t us in if leb_ℤ t u then t ∷ u ∷ us else u ∷ later

sort_times : List ℤ → List ℤ
unfolding insert_time
sort_times [] = []
sort_times (t ∷ ts) = insert_time t (sort_times ts)

-- `times[times.len() / 2]`; the slice `chain[start..=idx]` is not empty for an index of the chain.
unfoldable pub median_time_past : List HeaderInfo → ℕ → Result Stop ℤ
unfolding sort_times
median_time_past chain idx =
    let start = idx - 10 in
    let times =
      sort_times (map (λ header. header.time) (take (idx + 1 - start) (drop start chain))) in
    elim (get_elem? times (length times / 2)) [ some t ↦ ok t | none ↦ err panicked ]

unfoldable pub digishield_timespan : ℤ → ℤ → ConsensusParams → ℤ
unfolding ◌+ℤ◌ ◌-ℤ◌ ◌/ℤ◌ digishield_averaging_window_timespan digishield_min_actual_timespan
    digishield_max_actual_timespan
digishield_timespan last_mtp first_mtp params =
    let target_timespan = digishield_averaging_window_timespan params in
    let damped = target_timespan +ℤ (last_mtp -ℤ first_mtp -ℤ target_timespan) /ℤ pos 4 in
    let low = digishield_min_actual_timespan params in
    let high = digishield_max_actual_timespan params in
    let raised = if ltb_ℤ damped low then low else damped in
    if ltb_ℤ high raised then high else raised

unfoldable pub digishield_next_work_required : ℕ → ℤ → ℤ → ConsensusParams → Result Stop ℕ
unfolding checked_div checked_mul digishield_timespan limited digishield_averaging_window_timespan
digishield_next_work_required avg_target last_mtp first_mtp params = do
  quotient ← checked_div avg_target (as_u64 (digishield_averaging_window_timespan params))
  next ← checked_mul quotient (as_u64 (digishield_timespan last_mtp first_mtp params))
  ok (limited next params)

-- The sums of a loop: of the targets and of the weighted times.
pub record Sums : Type 0 where
  pub sum_target : ℕ
  pub weighted_time : ℤ
  pub previous_timestamp : ℤ
  pub previous_diff : ℕ

-- `k = n * (n + 1) * t / 2`
abbrev pub lwma_k : ConsensusParams → ℤ
lwma_k params =
    let n = params.zawy_lwma_averaging_window in
    n *ℤ (n +ℤ pos 1) *ℤ params.pow_target_spacing /ℤ pos 2

-- `value.clamp(low, high)`
abbrev clamp : ℤ → ℤ → ℤ → ℤ
clamp low high value = if ltb_ℤ value low then low else if ltb_ℤ high value then high else value

-- `sum_target.saturating_add(target / divisor)` with the divisor `k * n`.
add_target : ConsensusParams → ℕ → ℕ → Result Stop ℕ
unfolding ◌*ℤ◌ ◌/ℤ◌ ◌+ℤ◌ checked_div saturating_add
add_target params sum_target target =
    checked_div target (as_u64 (lwma_k params *ℤ params.zawy_lwma_averaging_window)) >>= λ part.
    ok (saturating_add sum_target part)

-- `for i in start_height..=height`, with the number of the rounds that are left; `idx` is
-- `i - base_height` and `j` the weight of the last round.
unfoldable pub lwma_loop : List HeaderInfo → ConsensusParams → ℕ → ℤ → ℤ → Sums → Result Stop Sums
unfolding ◌*ℤ◌ ◌-ℤ◌ ◌+ℤ◌ target_of add_target
lwma_loop chain params zero idx j sums = ok sums
lwma_loop chain params (suc rounds) idx j sums = do
  block ← header_at chain idx
  prev_block ← header_at chain (idx -ℤ pos 1)
  let solvetime =
      clamp (negsuc 359) (pos 6 *ℤ params.pow_target_spacing) (block.time -ℤ prev_block.time)
  target ← target_of block.bits
  sum ← add_target params sums.sum_target target
  lwma_loop chain params rounds (idx +ℤ pos 1) (j +ℤ pos 1) (record sums {
    sum_target = sum;
    weighted_time = sums.weighted_time +ℤ solvetime *ℤ (j +ℤ pos 1);
  })

abbrev pub no_sums : ℤ → Sums
no_sums previous_timestamp = record {
  sum_target = 0;
  weighted_time = pos 0;
  previous_timestamp = previous_timestamp;
  previous_diff = 0;
}

-- `height` is that of the last header, `base_height` that of the first one.
unfoldable pub lwma_next_work_required : List HeaderInfo → ℤ → ℤ → ConsensusParams → Result Stop ℕ
unfolding ◌*ℤ◌ ◌-ℤ◌ ◌+ℤ◌ ◌/ℤ◌ lwma_loop checked_mul limited target_to_compact
lwma_next_work_required chain base_height height params =
    let n = params.zawy_lwma_averaging_window in
    let floor = lwma_k params /ℤ pos 10 in
    if leb_ℤ height n
    then ok (target_to_compact params.pow_limit)
    else (lwma_loop chain params (pos_part n) (height -ℤ n +ℤ pos 1 -ℤ base_height) (pos 0)
          (no_sums (pos 0))
        >>= λ sums.
            let weighted_time =
              if ltb_ℤ sums.weighted_time floor then floor else sums.weighted_time in
            checked_mul sums.sum_target (as_u64 weighted_time) >>= λ next. ok (limited next params))

unfoldable pub lwma3_loop : List HeaderInfo → ConsensusParams → ℕ → ℤ → ℤ → Sums → Result Stop Sums
unfolding ◌*ℤ◌ ◌-ℤ◌ ◌+ℤ◌ target_of add_target
lwma3_loop chain params zero idx j sums = ok sums
lwma3_loop chain params (suc rounds) idx j sums = do
  block ← header_at chain idx
  let this_timestamp =
      if ltb_ℤ sums.previous_timestamp block.time
      then block.time
      else sums.previous_timestamp +ℤ pos 1
  let longest = pos 6 *ℤ params.pow_target_spacing
  let taken = this_timestamp -ℤ sums.previous_timestamp
  let solvetime = if ltb_ℤ taken longest then taken else longest
  target ← target_of block.bits
  sum ← add_target params sums.sum_target target
  lwma3_loop chain params rounds (idx +ℤ pos 1) (j +ℤ pos 1) (record {
    sum_target = sum;
    weighted_time = sums.weighted_time +ℤ solvetime *ℤ (j +ℤ pos 1);
    previous_timestamp = this_timestamp;
    previous_diff = if rounds == 0 then target else sums.previous_diff;
  })

-- The next target is kept between 67 and 150 hundredths of the last one, and below the limit.
unfoldable pub lwma3_target : ℕ → ℕ → ConsensusParams → ℕ
unfolding saturating_add mul_div_u256 limited
lwma3_target next previous_diff params =
    let max_target = saturating_add previous_diff (previous_diff / 2) in
    let min_target = mul_div_u256 previous_diff 67 100 in
    let lowered = if ltb max_target next then max_target else next in
    limited (if ltb lowered min_target then min_target else lowered) params

unfoldable pub lwma3_next_work_required : List HeaderInfo → ℤ → ℤ → ConsensusParams → Result Stop ℕ
unfolding ◌-ℤ◌ ◌+ℤ◌ lwma3_loop checked_mul lwma3_target target_to_compact
lwma3_next_work_required chain base_height height params =
    let n = params.zawy_lwma_averaging_window in
    if ltb_ℤ height n
    then ok (target_to_compact params.pow_limit)
    else (header_at chain (height -ℤ n -ℤ base_height) >>= λ before.
        lwma3_loop chain params (pos_part n) (height -ℤ n +ℤ pos 1 -ℤ base_height) (pos 0)
          (no_sums before.time)
        >>= λ sums. checked_mul sums.sum_target (as_u64 sums.weighted_time) >>= λ next.
            ok (lwma3_target next sums.previous_diff params))
