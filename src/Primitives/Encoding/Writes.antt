-- ===== src/Primitives/Encoding/Writes.antt =====
-- What each writer of encoding.rs adds to the buffer.
use fluxd_rust.Prelude.{
  ℕ, ◌+◌, ◌^◌, ◌%◌, ◌≤◌, ◌<◌, ◌≡◌, refl, sym, List, [], ◌∷◌, ◌++◌, append_assoc, length, ltb, leb,
  if◌then◌else◌, arith,
}
use fluxd_rust.Prelude.Int.{ℤ}
use fluxd_rust.Primitives.Bytes.{to_le_bytes, as_unsigned}
use fluxd_rust.Primitives.Encoding.{
  Encoder, new_encoder, into_inner, write_bytes, write_u8, write_u16_le, write_u32_le, write_i32_le,
  write_u64_le, write_i64_le, write_varint, write_var_bytes, write_var_str, write_hash_le,
}

-- The bytes of a compact size.
unfoldable pub varint_bytes : ℕ → List ℕ
varint_bytes value =
    if ltb value 0xfd
    then value ∷ []
    else if leb value 0xffff
    then 0xfd ∷ to_le_bytes 2 value
    else if leb value 0xffff_ffff
    then 0xfe ∷ to_le_bytes 4 value
    else 0xff ∷ to_le_bytes 8 value

abbrev pub var_bytes : List ℕ → List ℕ
var_bytes bytes = varint_bytes (length bytes) ++ bytes

module _ (e : Encoder) where
  pub buf-write_bytes : (bs : List ℕ) → (write_bytes bs e).buf ≡ e.buf ++ bs
  unfolding write_bytes
  buf-write_bytes bs = refl

  pub buf-write_u8 : (v : ℕ) → (write_u8 v e).buf ≡ e.buf ++ (v ∷ [])
  unfolding write_u8
  buf-write_u8 v = refl

  pub buf-write_u16_le : (v : ℕ) → (write_u16_le v e).buf ≡ e.buf ++ to_le_bytes 2 v
  unfolding write_u16_le
  buf-write_u16_le v = refl

  pub buf-write_u32_le : (v : ℕ) → (write_u32_le v e).buf ≡ e.buf ++ to_le_bytes 4 v
  unfolding write_u32_le
  buf-write_u32_le v = refl

  pub buf-write_i32_le :
      (v : ℤ) → (write_i32_le v e).buf ≡ e.buf ++ to_le_bytes 4 (as_unsigned (2 ^ 32) v)
  unfolding write_i32_le
  buf-write_i32_le v = refl

  pub buf-write_u64_le : (v : ℕ) → (write_u64_le v e).buf ≡ e.buf ++ to_le_bytes 8 v
  unfolding write_u64_le
  buf-write_u64_le v = refl

  pub buf-write_i64_le :
      (v : ℤ) → (write_i64_le v e).buf ≡ e.buf ++ to_le_bytes 8 (as_unsigned (2 ^ 64) v)
  unfolding write_i64_le
  buf-write_i64_le v = refl

  pub buf-write_hash_le : (hash : List ℕ) → (write_hash_le hash e).buf ≡ e.buf ++ hash
  unfolding write_hash_le
  buf-write_hash_le hash = refl

  -- The casts in `write_varint` keep the value.
  pub buf-write_varint : (v : ℕ) → (write_varint v e).buf ≡ e.buf ++ varint_bytes v
  unfolding write_varint varint_bytes write_u8 write_u16_le write_u32_le write_u64_le
  buf-write_varint v = ground (
    arith,
    append_assoc e.buf (0xfd ∷ []) (to_le_bytes 2 v),
    append_assoc e.buf (0xfe ∷ []) (to_le_bytes 4 v),
    append_assoc e.buf (0xff ∷ []) (to_le_bytes 8 v),
  )

pub buf-write_var_bytes :
    (e : Encoder) (bs : List ℕ) → (write_var_bytes bs e).buf ≡ e.buf ++ var_bytes bs
unfolding write_var_bytes
buf-write_var_bytes e bs =
    rw (buf-write_bytes, buf-write_varint) (append_assoc e.buf (varint_bytes (length bs)) bs)

pub buf-write_var_str :
    (e : Encoder) (bs : List ℕ) → (write_var_str bs e).buf ≡ e.buf ++ var_bytes bs
unfolding write_var_str
buf-write_var_str e bs = buf-write_var_bytes e bs

pub into_inner-buf : (e : Encoder) → into_inner e ≡ e.buf
unfolding into_inner
into_inner-buf e = refl

pub buf-new_encoder : new_encoder.buf ≡ []
unfolding new_encoder
buf-new_encoder = refl

-- The bytes of a chain of writers, in order and bracketed to the right.
pub ruleset writes = (
  into_inner-buf, buf-new_encoder, buf-write_bytes, buf-write_u8, buf-write_u16_le,
  buf-write_u32_le, buf-write_i32_le, buf-write_u64_le, buf-write_i64_le, buf-write_hash_le,
  buf-write_varint, buf-write_var_bytes, buf-write_var_str, append_assoc,
)
