-- ===== src/Pow/Compact.antt =====
-- crates/pow/src/difficulty.rs: the compact form of a 256-bit target, and the proof of a block.
-- `U256` is a third-party type; its values are numbers below 2 ^ 256, and its operations are those
-- of ℕ with what its documentation says of overflow written out.
pub mod Roundtrip
pub mod Truncation
pub mod Work
use fluxd_rust.Prelude.{
  ℕ, ◌+◌, ◌-◌, ◌*◌, ◌/◌, ◌%◌, ◌^◌, Bool, true, false, ◌&&◌, ◌||◌, not, List, if◌then◌else◌, ltb,
  leb, ◌==◌, zero, suc,
}
use fluxd_rust.Prelude.Result.{Result, ok, err, ◌>>=◌, ◌>>◌, fail_if, map_err}
use fluxd_rust.Primitives.Bytes.{to_le_bytes, from_le_bytes}

abbrev pub u256 : ℕ
u256 = 2 ^ 256

pub data CompactError : Type 0 where
  negative overflow : CompactError

-- `bits >> 24`, `bits & 0x007f_ffff` and the test of `bits & 0x0080_0000`.
abbrev pub size_of : ℕ → ℕ
size_of bits = bits / 2 ^ 24

abbrev pub word_of : ℕ → ℕ
word_of bits = bits % 2 ^ 23

abbrev pub is_negative : ℕ → Bool
is_negative bits = bits / 2 ^ 23 % 2 == 1

-- `word >>= shift` for a small size; otherwise the word is not changed.
abbrev pub shifted_word : ℕ → ℕ → ℕ
shifted_word size word = if leb size 3 then word / 2 ^ (8 * (3 - size)) else word

abbrev pub overflows : ℕ → ℕ → Bool
overflows size word =
    not (word == 0)
    && (ltb 34 size || (ltb 0xff word && ltb 33 size) || (ltb 0xffff word && ltb 32 size))

-- A left shift of a `U256` drops the bits that it moves out.
unfoldable pub compact_to_u256 : ℕ → Result CompactError ℕ
compact_to_u256 bits = do
  fail_if (is_negative bits) negative
  let size = size_of bits
  let word = shifted_word size (word_of bits)
  let value = if leb size 3 then word else word * 2 ^ (8 * (size - 3)) % u256
  fail_if (overflows size word) overflow
  ok value

-- `value.bits().div_ceil(8)`: the number of bytes, by taking them off one by one.
unfoldable pub byte_count_loop : ℕ → ℕ → ℕ
byte_count_loop zero value = 0
byte_count_loop (suc fuel) value =
    let rest = byte_count_loop fuel (value / 256) in if value == 0 then 0 else suc rest

-- A `U256` has 32 bytes.
unfoldable pub byte_count : ℕ → ℕ
byte_count value = byte_count_loop 32 value

-- The three leading bytes of the value.
abbrev pub leading : ℕ → ℕ → ℕ
leading value size =
    if leb size 3
    then value % 2 ^ 32 * 2 ^ (8 * (3 - size)) % 2 ^ 32
    else value / 2 ^ (8 * (size - 3)) % 2 ^ 32

-- The last two lines: a set sign bit moves the word down by a byte. The size and the word share no
-- bits, so `|` is addition.
abbrev pub pack : ℕ → ℕ → ℕ
pack compact size =
    if compact / 2 ^ 23 % 2 == 1
    then (size + 1) * 2 ^ 24 % 2 ^ 32 + compact / 2 ^ 8 % 2 ^ 23
    else size * 2 ^ 24 % 2 ^ 32 + compact % 2 ^ 23

unfoldable pub u256_to_compact : ℕ → ℕ
u256_to_compact value =
    if value == 0 then 0 else pack (leading value (byte_count value)) (byte_count value)

unfoldable pub compact_to_target : ℕ → Result CompactError (List ℕ)
compact_to_target bits = compact_to_u256 bits >>= λ value. ok (to_le_bytes 32 value)

unfoldable pub target_to_compact : List ℕ → ℕ
target_to_compact target = u256_to_compact (from_le_bytes target)

unfoldable pub hash_meets_target : List ℕ → List ℕ → Bool
hash_meets_target hash target = leb (from_le_bytes hash) (from_le_bytes target)

-- `!target` is the complement. `target + one` overflows for no target of compact form.
unfoldable pub block_proof : ℕ → Result CompactError ℕ
block_proof bits = do
  target ← compact_to_u256 bits
  ok (if target == 0 then 0 else (u256 - 1 - target) / (target + 1) + 1)
