-- ===== src/Pow/Words.antt =====
-- The operations of `U256` that crates/pow/src/difficulty.rs uses: some panic when the result does
-- not fit, some saturate and some wrap around, as their documentation says.
use native.Mathlib.Nat.{div-add-mod, mod-lt, div-lt_iff_lt-mul, le-div_iff_mul-le}
use fluxd_rust.Prelude.{
  ℕ, suc, ◌+◌, ◌-◌, ◌*◌, ◌/◌, ◌%◌, ◌≤◌, ◌<◌, ◌≡◌, sym, ap, ◌∙◌, false, if◌then◌else◌, ltb, ◌==◌,
  arith,
}
use fluxd_rust.Prelude.Result.{Result, ok, err}
use fluxd_rust.Pow.Compact.{u256}
use fluxd_rust.Pow.Headers.{DifficultyError}

-- A function of the source returns an error or panics.
pub data Stop : Type 0 where
  failed : DifficultyError → Stop
  panicked : Stop

abbrev pub max_value : ℕ
max_value = u256 - 1

-- `*` and `/` panic.
unfoldable pub checked_mul : ℕ → ℕ → Result Stop ℕ
checked_mul a b = if ltb (a * b) u256 then ok (a * b) else err panicked

unfoldable pub checked_div : ℕ → ℕ → Result Stop ℕ
checked_div a b = if b == 0 then err panicked else ok (a / b)

unfoldable pub saturating_add : ℕ → ℕ → ℕ
saturating_add a b = if ltb (a + b) u256 then a + b else max_value

-- `overflowing_mul` and `overflowing_add` without their flag.
unfoldable pub wrapping_mul : ℕ → ℕ → ℕ
wrapping_mul a b = a * b % u256

unfoldable pub wrapping_add : ℕ → ℕ → ℕ
wrapping_add a b = (a + b) % u256

-- `let (v, overflow) = q.overflowing_mul(m); if overflow { max } else { v }`
abbrev saturating_mul : ℕ → ℕ → ℕ
saturating_mul a b = if ltb (a * b) u256 then a * b else max_value

-- `r * U256::from(mul)` fits, since both are below 2 ^ 64 there.
unfoldable pub mul_div_u256 : ℕ → ℕ → ℕ → ℕ
unfolding saturating_add
mul_div_u256 value mul div =
    if div == 0
    then max_value
    else let q = value / div in
      let r = value - q * div in saturating_add (saturating_mul q mul) (r * mul / div)

div_unique : (x d k : ℕ) → 0 < d → k * d ≤ x → x < k * d + d → x / d ≡ k
div_unique x d k pos low high =
    let above : k ≤ x / d = (le-div_iff_mul-le pos).1 low in
    let below : x / d < suc k = (div-lt_iff_lt-mul pos).1 (grind arith) in omega arith

distribute : (q d r m : ℕ) → (q * d + r) * m ≡ q * m * d + r * m
distribute q d r m = grind arith

-- The quotient and the remainder are multiplied apart, without loss.
split_mul : (v m d : ℕ) → 0 < d → v / d * m + (v - v / d * d) * m / d ≡ v * m / d
split_mul v m d pos =
    let q = v / d in
    let r = v - q * d in
    let s = r * m / d in
    let whole : q * d + r ≡ v = omega (arith, div-add-mod v d) in
    let product : v * m ≡ q * m * d + r * m =
      ap (λ (t : ℕ). t * m) (sym whole) ∙ distribute q d r m in
    let rest : s * d + r * m % d ≡ r * m = omega (arith, div-add-mod (r * m) d) in
    let small : r * m % d < d = mod-lt (r * m) pos in
    sym (div_unique (v * m) d (q * m + s) pos (grind arith) (grind arith))

add_saturated :
    (q m s : ℕ)
    → saturating_add (saturating_mul q m) s
      ≡ (if ltb (q * m + s) u256 then q * m + s else max_value)
unfolding saturating_add
add_saturated q m s = ground arith

-- Multiplying a target by a fraction gives the exact quotient, or the greatest word where that does
-- not fit in one.
pub mul_div_u256_lem :
    (value mul div : ℕ)
    → 0 < div
    → mul_div_u256 value mul div
      ≡ (if ltb (value * mul / div) u256 then value * mul / div else max_value)
unfolding mul_div_u256
mul_div_u256_lem value mul div pos =
    let some_div : (div == 0) ≡ false = ground arith in
    rw (some_div, ← split_mul value mul div pos)
      (add_saturated (value / div) mul ((value - value / div * div) * mul / div))
