-- ===== src/Pow/Compact/Work.antt =====
-- The work that difficulty.rs counts for a block.
use native.Mathlib.Nat.{div-le_self, add-div_right, le-div_iff_mul-le, div-mul-le_self}
use fluxd_rust.Prelude.{
  ℕ, ◌+◌, ◌-◌, ◌*◌, ◌/◌, ◌%◌, ◌^◌, ◌≤◌, ◌<◌, ◌≡◌, sym, ap, ◌∙◌, false, if◌then◌else◌, leb, ◌==◌,
  arith, Bool-cases, inl, inr,
}
use fluxd_rust.Prelude.Result.{Result, ok}
use fluxd_rust.Pow.Compact.{
  u256, CompactError, compact_to_u256, size_of, word_of, is_negative, shifted_word, overflows,
  block_proof,
}

-- The value that a size and a word stand for.
abbrev value_of : ℕ → ℕ → ℕ
value_of size word =
    if leb size 3
    then shifted_word size word
    else shifted_word size word * 2 ^ (8 * (size - 3)) % u256

value_of-lt : (size word : ℕ) → word < 2 ^ 23 → value_of size word < u256
value_of-lt size word h = elim (Bool-cases (leb size 3)) [
  | inl small ↦ rw small (omega (arith, div-le_self word (2 ^ (8 * (3 - size)))))
  | inr large ↦ rw large (omega arith)
]

-- A target that is read from its compact form is a 256-bit number.
pub compact_to_u256-lt : (bits : ℕ) {t : ℕ} → compact_to_u256 bits ≡ ok t → t < u256
unfolding compact_to_u256
compact_to_u256-lt bits {t} h = elim (Bool-cases (is_negative bits)) [
  | inl neg ↦ cc (rw neg at h)
  | inr good ↦
      elim (Bool-cases (overflows (size_of bits) (shifted_word (size_of bits) (word_of bits)))) [
        | inl big ↦ cc (rw (good, big) at h)
        | inr fits ↦
            let e : ◌≡◌ {A = Result CompactError ℕ} (ok (value_of (size_of bits) (word_of bits)))
                (ok t) =
              rw (good, fits) at h in
            let e' : value_of (size_of bits) (word_of bits) ≡ t = cc in
            rw (← e') (value_of-lt (size_of bits) (word_of bits) (omega arith))
      ]
]

-- `!t / (t + 1) + 1` is the number of times that `t + 1` goes into 2 ^ 256, without a number above
-- 2 ^ 256 on the way.
complement_div : (t : ℕ) → t < u256 → (u256 - 1 - t) / (t + 1) + 1 ≡ u256 / (t + 1)
complement_div t h =
    let e : u256 - 1 - t + (t + 1) ≡ u256 = omega arith in
    sym (add-div_right (u256 - 1 - t) (omega arith)) ∙ ap (λ n. n / (t + 1)) e

anti_div : (t u : ℕ) → t ≤ u → u256 / (u + 1) ≤ u256 / (t + 1)
anti_div t u h =
    let q = u256 / (u + 1) in
    let fewer : q * (t + 1) ≤ q * (u + 1) = grind arith in
    (le-div_iff_mul-le (omega arith)).1 (omega (arith, fewer, div-mul-le_self u256 (u + 1)))

-- For two compact forms that are read as targets, the first not zero and at most the second: the
-- work of each is how often its target and one more go into 2 ^ 256, and the first has at least the
-- work of the second.
pub block_proof_lem :
    (a b t u : ℕ)
    → compact_to_u256 a ≡ ok t
    → compact_to_u256 b ≡ ok u
    → 0 < t
    → t ≤ u
    → (block_proof a ≡ ok (u256 / (t + 1)))
      × (block_proof b ≡ ok (u256 / (u + 1)))
      × (u256 / (u + 1) ≤ u256 / (t + 1))
unfolding block_proof
block_proof_lem a b t u ea eb pos le =
    let ta : t == 0 ≡ false = ground arith in
    let ub : u == 0 ≡ false = ground arith in
    (
      rw (ea, ta) (ap ok (complement_div t (compact_to_u256-lt a ea))),
      rw (eb, ub) (ap ok (complement_div u (compact_to_u256-lt b eb))),
      anti_div t u le,
    )
