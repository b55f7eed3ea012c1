-- ===== src/Primitives/Encoding/VarInt.antt =====
-- The compact size of encoding.rs: `read_varint` against `write_varint`.
use fluxd_rust.Prelude.{
  ℕ, ◌^◌, ◌≤◌, ◌<◌, ◌≡◌, refl, List, [], ◌∷◌, append-nil, Bool, true, length, ltb, leb,
  if◌then◌else◌, arith, inl, inr, Bool-cases, not,
}
use fluxd_rust.Primitives.Bytes.{to_le_bytes}
use fluxd_rust.Primitives.Encoding.{
  Reader, ◌>>=◌, ◌>>◌, pure, fail_if, read_varint, read_var_bytes, read_var_str, invalid_data,
  read_bytes, varint_value, at_least, max_compact_size, size_too_large, non_canonical_var_int,
}
use fluxd_rust.Primitives.Encoding.Writes.{varint_bytes, var_bytes}
use fluxd_rust.Primitives.Encoding.Reads.{
  Reads, Reads-bind, Reads-then, Reads-pure, Reads-fail_if, Reads-read_u8, Reads-read_u16_le,
  Reads-read_u32_le, Reads-read_u64_le, Reads-read_bytes,
}

Reads-at_least : (low v : ℕ) → low ≤ v → Reads (at_least low v) [] v
unfolding at_least
Reads-at_least low v h =
    Reads-then (Reads-fail_if non_canonical_var_int (ground arith)) (Reads-pure v)

-- What follows the prefix byte.
abbrev pub varint_tail : ℕ → List ℕ
varint_tail v =
    if ltb v 0xfd
    then []
    else if leb v 0xffff
    then to_le_bytes 2 v
    else if leb v 0xffff_ffff
    then to_le_bytes 4 v
    else to_le_bytes 8 v

abbrev pub varint_prefix : ℕ → ℕ
varint_prefix v =
    if ltb v 0xfd
    then v
    else if leb v 0xffff
    then 0xfd
    else if leb v 0xffff_ffff
    then 0xfe
    else 0xff

pub varint_bytes-split : (v : ℕ) → (varint_prefix v ∷ varint_tail v) ≡ varint_bytes v
unfolding varint_bytes
varint_bytes-split v = ground arith

Reads-checked :
    {m : Reader ℕ} {bs : List ℕ} (low v : ℕ)
    → Reads m bs v
    → low ≤ v
    → Reads (m >>= at_least low) bs v
Reads-checked {bs} low v r h =
    rw (← append-nil bs) (Reads-bind (at_least low) r (Reads-at_least low v h))

pub Reads-varint_value :
    (v : ℕ) → v < 2 ^ 64 → Reads (varint_value (varint_prefix v)) (varint_tail v) v
unfolding varint_value
Reads-varint_value v h = elim (Bool-cases (ltb v 0xfd)) [
  | inl p ↦ rw (p, p) (Reads-pure v)
  | inr p ↦ elim (Bool-cases (leb v 0xffff)) [
    | inl q ↦ rw (p, q) (Reads-checked 0xfd v (Reads-read_u16_le v (ground arith)) (ground arith))
    | inr q ↦ elim (Bool-cases (leb v 0xffff_ffff)) [
      | inl r ↦
          rw (p, q, r)
            (Reads-checked 0x1_0000 v (Reads-read_u32_le v (ground arith)) (ground arith))
      | inr r ↦ rw (p, q, r) (Reads-checked 0x1_0000_0000 v (Reads-read_u64_le v h) (ground arith))
    ]
  ]
]

abbrev pub checked_size : ℕ → Reader ℕ
checked_size value = fail_if (ltb max_compact_size value) size_too_large >> pure value

Reads-checked_size : (v : ℕ) → v ≤ max_compact_size → Reads (checked_size v) [] v
Reads-checked_size v h = Reads-then (Reads-fail_if size_too_large (ground arith)) (Reads-pure v)

pub Reads-read_varint : (v : ℕ) → v ≤ max_compact_size → Reads read_varint (varint_bytes v) v
unfolding read_varint
Reads-read_varint v h =
    rw (← varint_bytes-split v, ← append-nil (varint_tail v))
      (Reads-bind (λ prefix. varint_value prefix >>= checked_size) (Reads-read_u8 (varint_prefix v))
        (Reads-bind checked_size (Reads-varint_value v (omega arith)) (Reads-checked_size v h)))

pub Reads-read_var_bytes :
    (bs : List ℕ) → length bs ≤ max_compact_size → Reads read_var_bytes (var_bytes bs) bs
unfolding read_var_bytes
Reads-read_var_bytes bs h =
    Reads-bind (λ len. read_bytes len) (Reads-read_varint (length bs) h)
      (Reads-read_bytes _ bs refl)

pub Reads-read_var_str :
    (is_utf8 : List ℕ → Bool) (bs : List ℕ)
    → length bs ≤ max_compact_size
    → is_utf8 bs ≡ true
    → Reads (read_var_str is_utf8) (var_bytes bs) bs
unfolding read_var_str
Reads-read_var_str is_utf8 bs h u = rw (← append-nil (var_bytes bs)) (
    Reads-bind
      (λ bytes. fail_if (not (is_utf8 bytes)) (invalid_data "invalid utf8 string") >> pure bytes)
      (Reads-read_var_bytes bs h)
      (Reads-then (Reads-fail_if (invalid_data "invalid utf8 string") (rw u)) (Reads-pure bs)))
