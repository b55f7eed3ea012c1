-- ===== src/Pow/Compact/Roundtrip.antt =====
-- The two directions of the compact form of difficulty.rs.
use native.Mathlib.Nat.{pow-suc}
use native.Mathlib.Numerals.{towards_suc}
use fluxd_rust.Prelude.{
  ℕ, zero, suc, ◌+◌, ◌-◌, ◌*◌, ◌/◌, ◌%◌, ◌^◌, ◌≤◌, ◌<◌, ◌≡◌, refl, true, false, leb, ◌==◌, arith,
  Bool-cases, inl, inr,
}
use fluxd_rust.Prelude.Result.{ok}
use fluxd_rust.Pow.Compact.{
  u256, size_of, word_of, is_negative, overflows, compact_to_u256, byte_count_loop,
}

-- The number of bytes is the number of base-256 digits.
pub byte_count_loop_bounds :
    (fuel value : ℕ)
    → value < 256 ^ fuel
    → 0 < value
    → (k : ℕ) × (byte_count_loop fuel value ≡ suc k)
      × (k < fuel)
      × (256 ^ k ≤ value)
      × (value < 256 ^ suc k)
unfolding byte_count_loop
byte_count_loop_bounds zero value h pos = absurd (omega arith)
byte_count_loop_bounds (suc fuel) value h pos =
    let some_left : value == 0 ≡ false = ground arith in
    elim (Bool-cases (value / 256 == 0)) [
      | inl last ↦ (
        0,
        rw (some_left, last_zero fuel (value / 256) (ground arith)),
        omega arith,
        omega arith,
        ground arith,
      )
      | inr more ↦
          let (k, e, lt, lo, hi) =
            byte_count_loop_bounds fuel (value / 256) (omega (arith, pow-suc 256 fuel))
              (ground arith) in
          (
            suc k,
            rw (some_left, e),
            omega arith,
            omega (arith, pow-suc 256 k),
            omega (arith, pow-suc 256 (suc k)),
          )
    ]
  where
    last_zero : (fuel v : ℕ) → v ≡ 0 → byte_count_loop fuel v ≡ 0
    last_zero zero v e = refl
    last_zero (suc n) v e = rw e

pub pow_eight : (k : ℕ) → 2 ^ (8 * k + 8) ≡ 256 * 2 ^ (8 * k)
pow_eight k = simp towards_suc (omega arith)

pub pow_256 : (k : ℕ) → 256 ^ k ≡ 2 ^ (8 * k)
pow_256 zero = refl
pow_256 (suc k) =
    let e : 8 * suc k ≡ 8 * k + 8 = omega arith in
    rw (e, pow_eight k) (omega (arith, pow-suc 256 k, pow_256 k))

-- What is read back from a size and a word that fit together.
module _ (size word : ℕ) (small : word < 2 ^ 23) (size_range : size ≤ 33) where
  size_of-packed : size_of (size * 2 ^ 24 % 2 ^ 32 + word) ≡ size
  size_of-packed = omega arith

  word_of-packed : word_of (size * 2 ^ 24 % 2 ^ 32 + word) ≡ word
  word_of-packed = omega arith

  positive-packed : is_negative (size * 2 ^ 24 % 2 ^ 32 + word) ≡ false
  positive-packed = ground arith

  -- A size above three, with a value that fits.
  pub compact_to_u256-large :
      3 < size
      → word * 2 ^ (8 * (size - 3)) < u256
      → (size ≡ 33 → word ≤ 0xffff)
      → compact_to_u256 (size * 2 ^ 24 % 2 ^ 32 + word) ≡ ok (word * 2 ^ (8 * (size - 3)))
  unfolding compact_to_u256
  compact_to_u256-large big fits top =
      let t0 : leb size 3 ≡ false = ground arith in
      let t1 : overflows size word ≡ false = ground arith in
      let t2 : word * 2 ^ (8 * (size - 3)) % u256 ≡ word * 2 ^ (8 * (size - 3)) = omega arith in
      rw (positive-packed, size_of-packed, word_of-packed, t0, t1, t2)

  pub compact_to_u256-small :
      size ≤ 3 → compact_to_u256 (size * 2 ^ 24 % 2 ^ 32 + word) ≡ ok (word / 2 ^ (8 * (3 - size)))
  unfolding compact_to_u256
  compact_to_u256-small little =
      let t0 : leb size 3 ≡ true = ground arith in
      let t1 : (w : ℕ) → overflows size w ≡ false = λ w. ground arith in
      rw (positive-packed, size_of-packed, word_of-packed, t0, t1)
