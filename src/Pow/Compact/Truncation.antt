-- ===== src/Pow/Compact/Truncation.antt =====
-- `u256_to_compact` of difficulty.rs and back: the target loses only low bytes.
use native.Mathlib.Nat.{
  pow-suc, div-add-mod, mod-lt, div-div-eq-div-mul, div-lt_iff_lt-mul, le-div_iff_mul-le,
}
use fluxd_rust.Prelude.{
  ℕ, zero, suc, ◌+◌, ◌-◌, ◌*◌, ◌/◌, ◌%◌, ◌^◌, ◌≤◌, ◌<◌, ◌≡◌, refl, ap, ◌∙◌, sym, false, ltb, leb,
  ◌==◌, arith, Bool-cases, inl, inr,
}
use fluxd_rust.Prelude.Result.{ok}
use fluxd_rust.Pow.Compact.{
  u256, compact_to_u256, byte_count, byte_count_loop, leading, pack, u256_to_compact,
}
use fluxd_rust.Pow.Compact.Roundtrip.{
  byte_count_loop_bounds, pow_eight, pow_256, compact_to_u256-large, compact_to_u256-small,
}

-- The target is at most the value, and off by at most one part in 2 ^ 15.
pub record Approximates (value target : ℕ) : Type 0 where
  pub below : target ≤ value
  pub close : (value - target) * 2 ^ 15 ≤ value

-- A value cut to a multiple of `m`.
cut_bounds : (v m : ℕ) → 0 < m → (v / m * m ≤ v) × (v < v / m * m + m)
cut_bounds v m pos = omega (arith, div-add-mod v m, mod-lt v pos)

cut-Approximates : (v m : ℕ) → 0 < m → m * 2 ^ 15 ≤ v → Approximates v (v / m * m)
cut-Approximates v m pos h =
    let (lo, hi) = cut_bounds v m pos in record { below = lo; close = omega arith }

pack-unsigned : (c size : ℕ) → c < 2 ^ 23 → pack c size ≡ size * 2 ^ 24 % 2 ^ 32 + c
pack-unsigned c size h = ground arith

pack-signed :
    (c size : ℕ) → 2 ^ 23 ≤ c → c < 2 ^ 24 → pack c size ≡ (size + 1) * 2 ^ 24 % 2 ^ 32 + c / 256
pack-signed c size h k = ground arith

abbrev Restores : ℕ → ℕ → Type 0
Restores v size = (t : ℕ) × (compact_to_u256 (pack (leading v size) size) ≡ ok t) × Approximates v t

-- More than three bytes: `m` is the weight of the lowest byte that is kept.
module _ (size v m : ℕ) (is_m : 2 ^ (8 * (size - 3)) ≡ m) (big : 3 < size) (size_range : size ≤ 32)
    (fits : v < u256) (lo : 2 ^ 16 * m ≤ v) (hi : v < 2 ^ 24 * m) (pos : 0 < m) where
  quotient-lt : v / m < 2 ^ 24
  quotient-lt = (div-lt_iff_lt-mul pos).1 hi

  leading-large : leading v size ≡ v / m
  leading-large =
      let t0 : leb size 3 ≡ false = ground arith in rw (t0, is_m) (omega (arith, quotient-lt))

  Restores-unsigned : v / m < 2 ^ 23 → Restores v size
  Restores-unsigned w =
      let (below, _) = cut_bounds v m pos in
      let e =
        compact_to_u256-large size (v / m) w (omega arith) big (rw is_m (omega arith))
          (λ top. absurd (omega arith)) in
      (
        v / m * m,
        rw (leading-large, pack-unsigned (v / m) size w) (rw is_m at e),
        cut-Approximates v m pos (omega arith),
      )

  next_weight : 2 ^ (8 * (size + 1 - 3)) ≡ m * 256
  next_weight =
      let e : 8 * (size + 1 - 3) ≡ 8 * (size - 3) + 8 = omega arith in
      rw (e, pow_eight (size - 3), is_m) (omega arith)

  Restores-signed : 2 ^ 23 ≤ v / m → Restores v size
  Restores-signed w =
      let (below, _) = cut_bounds v (m * 256) (omega arith) in
      let same : v / m / 256 ≡ v / (m * 256) = div-div-eq-div-mul v m 256 in
      let heavy : 2 ^ 23 * m ≤ v = (le-div_iff_mul-le pos).0 w in
      let e =
        compact_to_u256-large (size + 1) (v / m / 256) (omega (arith, quotient-lt)) (omega arith)
          (omega arith) (rw (next_weight, same) (omega arith))
          (λ top. omega (arith, quotient-lt)) in
      (
        v / (m * 256) * (m * 256),
        rw (leading-large, pack-signed (v / m) size w quotient-lt, same)
            (rw (next_weight, same) at e),
        cut-Approximates v (m * 256) (omega arith) (omega arith),
      )

  Restores-large : Restores v size
  Restores-large = elim (Bool-cases (ltb (v / m) (2 ^ 23))) [
    | inl unsigned ↦ Restores-unsigned (ground arith)
    | inr signed ↦ Restores-signed (ground arith)
  ]

exactly : (v : ℕ) → Approximates v v
exactly v = record { below = omega arith; close = omega arith }

-- Up to three bytes: the value stands in the high bytes of the word.
module _ (size v c t : ℕ) (is_leading : leading v size ≡ c) where
  small-unsigned :
      c < 2 ^ 23
      → size ≤ 3
      → c / 2 ^ (8 * (3 - size)) ≡ t
      → compact_to_u256 (pack (leading v size) size) ≡ ok t
  small-unsigned low little e =
      rw (is_leading, pack-unsigned c size low)
        (compact_to_u256-small size c low (omega arith) little ∙ ap ok e)

  small-signed :
      2 ^ 23 ≤ c
      → c < 2 ^ 24
      → size + 1 ≤ 3
      → c / 256 / 2 ^ (8 * (3 - (size + 1))) ≡ t
      → compact_to_u256 (pack (leading v size) size) ≡ ok t
  small-signed high top little e =
      rw (is_leading, pack-signed c size high top)
        (compact_to_u256-small (size + 1) (c / 256) (omega arith) (omega arith) little ∙ ap ok e)

Restores-one : (v : ℕ) → v < 2 ^ 8 → Restores v 1
Restores-one v h = elim (Bool-cases (ltb v 128)) [
  | inl low ↦ (
    v,
    small-unsigned 1 v (v * 2 ^ 16) v (omega arith) (ground arith) (omega arith) (omega arith),
    exactly v,
  )
  | inr high ↦ (
    v,
    small-signed 1 v (v * 2 ^ 16) v (omega arith) (ground arith) (omega arith) (omega arith)
        (omega arith),
    exactly v,
  )
]

Restores-two : (v : ℕ) → v < 2 ^ 16 → Restores v 2
Restores-two v h = elim (Bool-cases (ltb v (2 ^ 15))) [
  | inl low ↦ (
    v,
    small-unsigned 2 v (v * 2 ^ 8) v (omega arith) (ground arith) (omega arith) (omega arith),
    exactly v,
  )
  | inr high ↦ (
    v,
    small-signed 2 v (v * 2 ^ 8) v (omega arith) (ground arith) (omega arith) (omega arith)
        (omega arith),
    exactly v,
  )
]

Restores-three : (v : ℕ) → v < 2 ^ 24 → Restores v 3
Restores-three v h = elim (Bool-cases (ltb v (2 ^ 23))) [
  | inl low ↦ (
    v,
    small-unsigned 3 v v v (omega arith) (ground arith) (omega arith) (omega arith),
    exactly v,
  )
  | inr high ↦
      let top : 2 ^ 23 ≤ v = ground arith in
      let is_leading : leading v 3 ≡ v = omega arith in
      (
        v / 256 * 256,
        rw (is_leading, pack-signed v 3 top h)
            (compact_to_u256-large 4 (v / 256) (omega arith) (omega arith) (omega arith)
              (omega arith) (λ e. absurd (omega arith))),
        cut-Approximates v 256 (omega arith) (omega arith),
      )
]

byte_count_lem : (v : ℕ) → byte_count v ≡ byte_count_loop 32 v
unfolding byte_count
byte_count_lem v = refl

-- The number of bytes is `k + 1`.
Restores-size : (k v : ℕ) → k < 32 → 256 ^ k ≤ v → v < 256 ^ suc k → v < u256 → Restores v (suc k)
Restores-size zero v lt lo hi h = Restores-one v hi
Restores-size (suc zero) v lt lo hi h = Restores-two v hi
Restores-size (suc (suc zero)) v lt lo hi h = Restores-three v hi
Restores-size (suc (suc (suc j))) v lt lo hi h =
    let m = 256 ^ suc j in
    let e : suc (suc (suc (suc j))) - 3 ≡ suc j = omega arith in
    let is_m : 2 ^ (8 * (suc (suc (suc (suc j))) - 3)) ≡ m = rw e (sym (pow_256 (suc j))) in
    let two = pow-suc 256 (suc j) in
    let three = pow-suc 256 (suc (suc j)) in
    let four = pow-suc 256 (suc (suc (suc j))) in
    Restores-large (suc (suc (suc (suc j)))) v m is_m (omega arith) (omega arith) h (omega arith)
      (omega arith) (omega arith)

-- A value below 2 ^ 256 is read back from its compact form without an error, as a target that is at
-- most the value and below it by at most one part in 2 ^ 15.
pub compact_to_u256-u256_to_compact :
    (v : ℕ) → v < u256 → (t : ℕ) × (compact_to_u256 (u256_to_compact v) ≡ ok t) × Approximates v t
unfolding u256_to_compact
compact_to_u256-u256_to_compact v h = elim (Bool-cases (v == 0)) [
  | inl none_left ↦ (0, rw none_left (unfold compact_to_u256 in refl), ground arith)
  | inr some_left ↦
      let (k, e, lt, lo, hi) = byte_count_loop_bounds 32 v h (ground arith) in
      let (t, restored, close) = Restores-size k v lt lo hi h in
      (t, rw (some_left, byte_count_lem v ∙ e) restored, close)
]
