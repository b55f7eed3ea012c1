-- ===== src/Tests/Primitives.antt =====
-- Compact sizes of encoding.rs.
use fluxd_rust.Prelude.{ℕ, ◌≤◌, ◌≡◌, refl, List, [], ◌∷◌, ◌++◌, leb, if◌then◌else◌, arith}
use fluxd_rust.Prelude.Result.{ok, err}
use fluxd_rust.Primitives.Encoding.{
  new_encoder, into_inner, write_varint, Decoder, new_decoder, read_varint, decode,
  max_compact_size, non_canonical_var_int, unexpected_eof, size_too_large,
}
use fluxd_rust.Primitives.Bytes.{from_le_bytes}
use fluxd_rust.Primitives.Encoding.Reads.{unread}
use fluxd_rust.Primitives.Encoding.CompactSize.{write_varint-read_varint, read_varint-write_varint}

-- 300 behind its prefix, and one more byte.
abbrev input : List ℕ
input = 0xfd ∷ 0x2c ∷ 0x01 ∷ 7 ∷ []

abbrev behind : Decoder
behind = record { input = input; cursor = 3 }

read_300 : read_varint (new_decoder input) ≡ ok (300, behind)
unfolding read_varint new_decoder from_le_bytes
read_300 = refl

read_wide : decode read_varint (0xfd ∷ 0x2c ∷ 0x00 ∷ []) ≡ err non_canonical_var_int
unfolding decode read_varint from_le_bytes
read_wide = refl

read_short : decode read_varint (0xfe ∷ 0x2c ∷ 0x00 ∷ []) ≡ err unexpected_eof
unfolding decode read_varint from_le_bytes
read_short = refl

read_large : decode read_varint (0xfe ∷ 1 ∷ 0 ∷ 0 ∷ 2 ∷ []) ≡ err size_too_large
unfolding decode read_varint from_le_bytes
read_large = refl

write_varint-read_varint_example :
    (300 ≤ max_compact_size)
    × (unread (new_decoder input) ≡ into_inner (write_varint 300 new_encoder) ++ unread behind)
unfolding unread new_decoder
write_varint-read_varint_example =
    write_varint-read_varint (new_decoder input)
      (omega arith, (omega arith, (omega arith, (omega arith, tt)))) read_300

read_varint-write_varint_example :
    decode read_varint (into_inner (write_varint 70_000 new_encoder))
    ≡ (if leb 70_000 max_compact_size then ok 70_000 else err size_too_large)
read_varint-write_varint_example = read_varint-write_varint 70_000 (omega arith)
