-- ===== src/Pow/NextWork.antt =====
-- crates/pow/src/difficulty.rs: the choice of the bits that the next header must have.
pub mod Limits
pub mod Swing
use fluxd_rust.Prelude.{
  ℕ, zero, suc, ◌+◌, ◌-◌, ◌*◌, ◌/◌, ◌%◌, ◌^◌, List, [], ◌∷◌, length, drop, Bool, true, false, ◌&&◌,
  Option, none, some, if◌then◌else◌, ltb, leb, ◌==◌,
}
use fluxd_rust.Prelude.Int.{ℤ, pos, ◌+ℤ◌, ◌-ℤ◌, ◌*ℤ◌, ltb_ℤ, leb_ℤ}
use fluxd_rust.Prelude.Result.{Result, ok, err, map_err, ◌>>=◌, ◌>>◌}
use fluxd_rust.Primitives.Bytes.{as_unsigned}
use fluxd_rust.Consensus.Params.{ConsensusParams}
use fluxd_rust.Consensus.Upgrades.{lwma, acadia, equi144_5, kamiooka}
use fluxd_rust.Pow.Compact.{target_to_compact}
use fluxd_rust.Pow.Headers.{HeaderInfo, ensure_contiguous, eh_epoch_end}
use fluxd_rust.Pow.Words.{
  Stop, failed, panicked, checked_div, saturating_add, wrapping_mul, wrapping_add,
}
use fluxd_rust.Pow.Averages.{
  as_u64, target_of, limited, median_time_past, digishield_next_work_required,
  lwma_next_work_required, lwma3_next_work_required,
}

-- `chain.last()`
abbrev pub last_header : HeaderInfo → List HeaderInfo → HeaderInfo
last_header first [] = first
last_header first (header ∷ rest) = last_header header rest

-- `total = total.saturating_add(compact_to_u256(header.bits)?)` for each header.
unfoldable pub total_of : ℕ → List HeaderInfo → Result Stop ℕ
unfolding target_of saturating_add
total_of total [] = ok total
total_of total (header ∷ rest) =
    target_of header.bits >>= λ target. total_of (saturating_add total target) rest

-- After the second change of the Equihash parameters the target starts higher and falls by steps.
-- A shift right by five is a division by 32, and a cast to u32 keeps the low bits.
unfoldable pub fading : ℕ → ℤ → ConsensusParams → Result Stop ℕ
unfolding target_of wrapping_mul wrapping_add ◌+ℤ◌ ◌-ℤ◌ limited
fading lwma_bits steps params = target_of lwma_bits >>= λ full_target.
    let target_step = wrapping_mul (full_target / 2 ^ 5) (as_unsigned (2 ^ 64) steps % 2 ^ 32) in
    ok (limited (wrapping_add full_target target_step) params)

-- Whether the next header comes so late that the minimal difficulty is allowed.
unfoldable pub is_late : HeaderInfo → Option ℤ → ConsensusParams → Bool
unfolding ◌+ℤ◌ ◌*ℤ◌
is_late last next_block_time params = elim params.pow_allow_min_difficulty_after_height [
  | none ↦ false
  | some min_height ↦ leb_ℤ min_height last.height && elim next_block_time [
    | none ↦ false
    | some next_time ↦ ltb_ℤ (last.time +ℤ params.pow_target_spacing *ℤ pos 2) next_time
  ]
]

-- The average of the window, by the algorithm of the next height.
unfoldable pub averaged : List HeaderInfo → ℤ → HeaderInfo → ConsensusParams → Result Stop ℕ
unfolding total_of checked_div median_time_past digishield_next_work_required
    lwma_next_work_required lwma3_next_work_required ◌+ℤ◌
averaged chain base_height last params =
    let window = as_u64 params.digishield_averaging_window in
    let start = length chain - window in
    let next_height = last.height +ℤ pos 1 in
    total_of 0 (drop start chain) >>= λ total. checked_div total window >>= λ avg.
    if ltb_ℤ next_height (params.upgrades lwma).activation_height
    then (median_time_past chain (length chain - 1) >>= λ last_mtp.
        median_time_past chain (start - 1) >>= λ first_mtp.
        digishield_next_work_required avg last_mtp first_mtp params)
    else if ltb_ℤ next_height (params.upgrades acadia).activation_height
    then lwma_next_work_required chain base_height last.height params
    else lwma3_next_work_required chain base_height last.height params

-- Behind the test of the chain.
unfoldable pub next_work : HeaderInfo → List HeaderInfo → Option ℤ → ConsensusParams → Result Stop ℕ
unfolding eh_epoch_end ◌+ℤ◌ ◌-ℤ◌ target_to_compact lwma3_next_work_required fading is_late averaged
next_work first rest next_block_time params =
    let chain = first ∷ rest in
    let last = last_header first rest in
    let pow_limit_bits = target_to_compact params.pow_limit in
    let epoch_1_end = eh_epoch_end params equi144_5 in
    let epoch_2_end = eh_epoch_end params kamiooka in
    let averages = averaged chain first.height last params in
    if ltb_ℤ (epoch_1_end -ℤ pos 1) last.height && ltb_ℤ last.height (epoch_1_end +ℤ pos 61)
    then ok pow_limit_bits
    else if ltb_ℤ (epoch_2_end -ℤ pos 1) last.height && ltb_ℤ last.height (epoch_2_end +ℤ pos 64)
    then (lwma3_next_work_required chain first.height last.height params >>= λ lwma_bits.
        fading lwma_bits (epoch_2_end +ℤ pos 61 -ℤ last.height) params)
    else if is_late last next_block_time params
    then ok pow_limit_bits
    else if leb (length chain) (as_u64 params.digishield_averaging_window)
    then ok pow_limit_bits
    else averages

unfoldable pub get_next_work_required : List HeaderInfo → Option ℤ → ConsensusParams → Result Stop ℕ
unfolding target_to_compact ensure_contiguous next_work
get_next_work_required [] next_block_time params = ok (target_to_compact params.pow_limit)
get_next_work_required (first ∷ rest) next_block_time params =
    map_err failed (ensure_contiguous first rest) >> next_work first rest next_block_time params
