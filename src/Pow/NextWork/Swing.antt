-- ===== src/Pow/NextWork/Swing.antt =====
-- How far the last algorithm of difficulty.rs moves the target from one header to the next.
use fluxd_rust.Prelude.{ℕ, ◌+◌, ◌*◌, ◌/◌, ◌≤◌, ◌<◌, ◌≡◌, refl, if◌then◌else◌, ltb, arith, true}
use fluxd_rust.Prelude.Result.{ok}
use fluxd_rust.Primitives.Bytes.{from_le_bytes}
use fluxd_rust.Consensus.Params.{ConsensusParams}
use fluxd_rust.Pow.Compact.{u256, compact_to_u256}
use fluxd_rust.Pow.Compact.Truncation.{Approximates, compact_to_u256-u256_to_compact}
use fluxd_rust.Pow.Words.{saturating_add, mul_div_u256, mul_div_u256_lem}
use fluxd_rust.Pow.Averages.{limited, lwma3_target}
use fluxd_rust.Pow.NextWork.Limits.{HasLimit, limit_range}

hundredths : (value : ℕ) → value < u256 → mul_div_u256 value 67 100 ≡ value * 67 / 100
hundredths value h =
    let fits : ltb (value * 67 / 100) u256 ≡ true = ground arith in
    rw (mul_div_u256_lem value 67 100 (omega arith), fits) refl

-- The exact value whose compact form the bits are.
pub record IsSwing (params : ConsensusParams) (previous bits : ℕ) : Type 0 where
  pub value : ℕ
  pub target : ℕ
  pub target_of_bits : compact_to_u256 bits ≡ ok target
  pub target_close : Approximates value target
  pub value_limit : value ≤ from_le_bytes params.pow_limit
  pub value_high : value ≤ previous + previous / 2
  pub value_low :
      (if ltb (from_le_bytes params.pow_limit) (previous * 67 / 100)
        then from_le_bytes params.pow_limit
        else previous * 67 / 100)
      ≤ value

-- Whatever the average asks for, the next target is the compact form of a value between 67 and 150
-- hundredths of the last target and within the limit, where the limit prevails.
pub lwma3_target-IsSwing :
    (next previous : ℕ) (params : ConsensusParams)
    → HasLimit params
    → previous < u256
    → IsSwing params previous (lwma3_target next previous params)
unfolding lwma3_target limited saturating_add
lwma3_target-IsSwing next previous params h range =
    let limit = from_le_bytes params.pow_limit in
    let low = previous * 67 / 100 in
    let high = saturating_add previous (previous / 2) in
    let lowered = if ltb high next then high else next in
    let raised = if ltb lowered low then low else lowered in
    let value = if ltb limit raised then limit else raised in
    let below : value ≤ limit = ground arith in
    let (t, e, close) =
      compact_to_u256-u256_to_compact value (omega (arith, below, limit_range params h)) in
    record {
      value = value;
      target = t;
      target_of_bits = rw (hundredths previous range) e;
      target_close = close;
      value_limit = below;
      value_high = ground arith;
      value_low = ground arith;
    }
