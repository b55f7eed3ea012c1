-- ===== src/Primitives/Merkle/Ranges.antt =====
-- The leaves below a node of merkleblock.rs: `calc_tree_width`, `calc_tree_height` and the ranges of
-- `traverse_and_build`, for blocks of at most `max_transactions`.
use native.Mathlib.Nat.{two-pow-succ, one-le-pow, div-le_self, pow-le-pow_right, le-div_iff_mul-le}
use fluxd_rust.Prelude.{
  ℕ, zero, suc, ◌+◌, ◌-◌, ◌*◌, ◌/◌, ◌^◌, ◌≤◌, ◌<◌, min, ◌≡◌, ◌≢◌, sym, ap, ◌↔◌, false, Bool-cases,
  inl, inr, ltb, leb, tests, arith,
}
use fluxd_rust.Primitives.Merkle.{
  calc_tree_width, calc_tree_height, height_loop, left_of, right_of, u64_max, max_transactions,
}

pub pow_bounds : (height : ℕ) → height ≤ 16 → (0 < 2 ^ height) × (2 ^ height ≤ 65_536)
pow_bounds height h = (one-le-pow height 2 (omega arith), pow-le-pow_right (omega arith) h)

-- Rounding up: the nodes of a level are those that begin before the end of the block.
ceil_lt : (n m q : ℕ) → 0 < m → (q < (n + (m - 1)) / m) ↔ (q * m < n)
ceil_lt n m q pos =
    let d : (q + 1 ≤ (n + (m - 1)) / m) ↔ ((q + 1) * m ≤ n + (m - 1)) = le-div_iff_mul-le pos in
    (
      λ h. omega (arith, d.0 (omega (arith, h)), pos),
      λ h. omega (arith, d.1 (omega (arith, h, pos))),
    )

-- No shift, sum or conversion of the code is out of range.
pub calc_tree_width_lem :
    (n height : ℕ)
    → n ≤ max_transactions
    → height ≤ 16
    → calc_tree_width n height ≡ (n + (2 ^ height - 1)) / 2 ^ height
unfolding calc_tree_width
calc_tree_width_lem n height few low =
    let b = pow_bounds height low in
    let below : leb 64 height ≡ false = ground arith in
    let fits : min (n + (2 ^ height - 1)) u64_max ≡ n + (2 ^ height - 1) = omega (arith, b) in
    rw (below, fits) (omega (arith, b, div-le_self (n + (2 ^ height - 1)) (2 ^ height)))

pub lt-calc_tree_width :
    (n height q : ℕ)
    → n ≤ max_transactions
    → height ≤ 16
    → (q < calc_tree_width n height) ↔ (q * 2 ^ height < n)
lt-calc_tree_width n height q few low =
    rw (calc_tree_width_lem n height few low) (ceil_lt n (2 ^ height) q (pow_bounds height low).0)

-- The loop stops at the first height where the tree is one node wide.
height_loop_top :
    (fuel n height top : ℕ)
    → calc_tree_width n top ≤ 1
    → height ≤ top
    → top ≤ height + fuel
    → (height_loop fuel n height ≤ top) × (calc_tree_width n (height_loop fuel n height) ≤ 1)
unfolding height_loop
height_loop_top zero n height top one low far =
    let e : height ≡ top = omega arith in (omega arith, rw e one)
height_loop_top (suc fuel) n height top one low far =
    elim (Bool-cases (ltb 1 (calc_tree_width n height))) [
      | inr stop ↦ rw stop (low, ground arith)
      | inl wide ↦
          let apart : height ≢ top = λ e. omega (tests, wide, one, ap (calc_tree_width n) e) in
          rw wide (height_loop_top fuel n (height + 1) top one (omega (arith, apart)) (omega arith))
    ]

covers :
    (n height : ℕ)
    → n ≤ max_transactions
    → height ≤ 16
    → calc_tree_width n height ≤ 1
    → n ≤ 2 ^ height
covers n height few low one = ground (arith, lt-calc_tree_width n height 1 few low)

-- For a block that the code accepts, the tree is at most 16 levels high, and the root stands over all of it.
pub calc_tree_height_lem :
    (n : ℕ) → n ≤ max_transactions → (calc_tree_height n ≤ 16) × (n ≤ 2 ^ calc_tree_height n)
unfolding calc_tree_height
calc_tree_height_lem n few =
    let top : calc_tree_width n 16 ≤ 1 =
      ground (arith, lt-calc_tree_width n 16 1 few (omega arith)) in
    let r : (height_loop 64 n 0 ≤ 16) × (calc_tree_width n (height_loop 64 n 0) ≤ 1) =
      height_loop_top 64 n 0 16 top (omega arith) (omega arith) in
    (r.0, covers n (height_loop 64 n 0) few r.0 r.1)

le_mul : (p m : ℕ) → 0 < m → p ≤ p * m
le_mul p zero h = absurd (omega arith)
le_mul p (suc m) h = omega arith

-- The numbers of a node's children: no sum saturates.
module _ (n : ℕ) (few : n ≤ max_transactions) (height pos : ℕ) (low : suc height ≤ 16)
    (inside : pos * 2 ^ suc height < n) where
  double : pos * 2 ^ suc height ≡ (pos * 2) * 2 ^ height
  double = rw (two-pow-succ height) (omega arith)

  pos_small : pos < n
  pos_small = omega (arith, inside, le_mul pos (2 ^ suc height) (pow_bounds (suc height) low).0)

  pub left_of_lem : left_of pos ≡ pos * 2
  left_of_lem = omega (arith, pos_small, few)

  pub right_of_lem : right_of pos ≡ pos * 2 + 1
  right_of_lem = omega (arith, pos_small, few)

  abbrev a : ℕ
  a = pos * 2 ^ suc height

  abbrev m : ℕ
  m = 2 ^ height

  pub left_start : left_of pos * 2 ^ height ≡ a
  left_start = rw (left_of_lem) (sym double)

  pub right_start : right_of pos * 2 ^ height ≡ a + m
  right_start = rw (right_of_lem, double) (omega arith)

  pub left_end : (left_of pos + 1) * 2 ^ height ≡ a + m
  left_end = rw (left_of_lem, double) (omega arith)

  pub right_end : (right_of pos + 1) * 2 ^ height ≡ a + (m + m)
  right_end = rw (right_of_lem, double) (omega arith)

  pub whole_end : (pos + 1) * 2 ^ suc height ≡ a + (m + m)
  whole_end = rw (two-pow-succ height) (omega arith)
