-- ===== src/Tests/Pow.antt =====
-- Compact targets of difficulty.rs.
use fluxd_rust.Prelude.{ℕ, ◌+◌, ◌*◌, ◌/◌, ◌^◌, ◌≤◌, ◌≡◌, refl, arith}
use fluxd_rust.Prelude.Result.{ok, err}
use fluxd_rust.Pow.Compact.{
  u256, compact_to_u256, u256_to_compact, byte_count, byte_count_loop, block_proof, negative,
  overflow,
}
use fluxd_rust.Pow.Compact.Truncation.{Approximates, compact_to_u256-u256_to_compact}
use fluxd_rust.Pow.Compact.Work.{block_proof_lem}

abbrev mainnet_limit : ℕ
mainnet_limit = 0x7_ffff * 2 ^ 232

limit_bits : u256_to_compact mainnet_limit ≡ 0x2007_ffff
unfolding u256_to_compact byte_count byte_count_loop
limit_bits = refl

bits_limit : compact_to_u256 0x2007_ffff ≡ ok mainnet_limit
unfolding compact_to_u256
bits_limit = refl

bits_small : compact_to_u256 0x0312_3456 ≡ ok 0x12_3456
unfolding compact_to_u256
bits_small = refl

bits_negative : compact_to_u256 0x0492_3456 ≡ err negative
unfolding compact_to_u256
bits_negative = refl

bits_overflow : compact_to_u256 0xff12_3456 ≡ err overflow
unfolding compact_to_u256
bits_overflow = refl

-- The sign bit would be set, so one more byte is counted.
compact_bump : u256_to_compact 0x80_0000 ≡ 0x0400_8000
unfolding u256_to_compact byte_count byte_count_loop
compact_bump = refl

compact_to_u256-u256_to_compact_example :
    (t : ℕ) × (compact_to_u256 (u256_to_compact 0x1234_5678_9abc) ≡ ok t)
    × Approximates 0x1234_5678_9abc t
compact_to_u256-u256_to_compact_example =
    compact_to_u256-u256_to_compact 0x1234_5678_9abc (omega arith)

block_proof_lem_example :
    (block_proof 0x0312_3456 ≡ ok (u256 / (0x12_3456 + 1)))
    × (block_proof 0x2007_ffff ≡ ok (u256 / (mainnet_limit + 1)))
    × (u256 / (mainnet_limit + 1) ≤ u256 / (0x12_3456 + 1))
block_proof_lem_example =
    block_proof_lem 0x0312_3456 0x2007_ffff 0x12_3456 mainnet_limit bits_small bits_limit
      (omega arith) (omega arith)
