-- ===== src/Primitives/Encoding.antt =====
-- crates/primitives/src/encoding.rs: the `Encoder` and the `Decoder`.
-- A writer takes the encoder and returns it with more bytes in its buffer. A reader returns its
-- value and the decoder behind what it read; every caller of the source leaves by `?` on an error,
-- so the decoder's state after an error is never seen.
pub mod Reads
pub mod Writes
pub mod Vectors
pub mod VarInt
pub mod Canonical
pub mod CompactSize
pub mod Ends
use Prim.Native.String.{String}
use fluxd_rust.Prelude.{
  ℕ, zero, suc, ◌+◌, ◌-◌, ◌*◌, ◌^◌, ◌%◌, Bool, true, false, not, List, [], ◌∷◌, ◌++◌, length, take,
  drop, ltb, leb, ◌==◌, if◌then◌else◌,
}
use fluxd_rust.Prelude.Int.{ℤ}
use fluxd_rust.Prelude.Result.{Result, ok, err}
use fluxd_rust.Primitives.Bytes.{to_le_bytes, from_le_bytes, as_unsigned, as_signed}

pub record Encoder : Type 0 where
  pub buf : List ℕ

-- A chain of writers stands in the order of the source's statements.
infixl 1 ◌▷◌
abbrev pub ◌▷◌ : Encoder → (Encoder → Encoder) → Encoder
e ▷ w = w e

unfoldable pub new_encoder : Encoder
new_encoder = record { buf = [] }

unfoldable pub into_inner : Encoder → List ℕ
into_inner e = e.buf

unfoldable pub write_bytes : List ℕ → Encoder → Encoder
write_bytes bytes e = record { buf = e.buf ++ bytes }

unfoldable pub write_u8 : ℕ → Encoder → Encoder
write_u8 value e = record { buf = e.buf ++ (value ∷ []) }

-- The values that the `as` casts of the callers leave are below the width's modulus.
unfoldable pub write_i8 : ℤ → Encoder → Encoder
write_i8 value e = record { buf = e.buf ++ (as_unsigned (2 ^ 8) value ∷ []) }

unfoldable pub write_u16_le : ℕ → Encoder → Encoder
write_u16_le value e = record { buf = e.buf ++ to_le_bytes 2 value }

unfoldable pub write_u32_le : ℕ → Encoder → Encoder
write_u32_le value e = record { buf = e.buf ++ to_le_bytes 4 value }

unfoldable pub write_i32_le : ℤ → Encoder → Encoder
write_i32_le value e = record { buf = e.buf ++ to_le_bytes 4 (as_unsigned (2 ^ 32) value) }

unfoldable pub write_u64_le : ℕ → Encoder → Encoder
write_u64_le value e = record { buf = e.buf ++ to_le_bytes 8 value }

unfoldable pub write_i64_le : ℤ → Encoder → Encoder
write_i64_le value e = record { buf = e.buf ++ to_le_bytes 8 (as_unsigned (2 ^ 64) value) }

-- `value as u8`, `as u16` and `as u32` keep the low bits.
unfoldable pub write_varint : ℕ → Encoder → Encoder
write_varint value e =
    if ltb value 0xfd
    then write_u8 (value % 2 ^ 8) e
    else if leb value 0xffff
    then write_u16_le (value % 2 ^ 16) (write_u8 0xfd e)
    else if leb value 0xffff_ffff
    then write_u32_le (value % 2 ^ 32) (write_u8 0xfe e)
    else write_u64_le value (write_u8 0xff e)

unfoldable pub write_var_bytes : List ℕ → Encoder → Encoder
write_var_bytes bytes e = write_bytes bytes (write_varint (length bytes) e)

-- A Rust `String` is its UTF-8 bytes.
unfoldable pub write_var_str : List ℕ → Encoder → Encoder
unfolding write_var_bytes
write_var_str value e = write_var_bytes value e

-- A `Hash256` is its 32 bytes.
unfoldable pub write_hash_le : List ℕ → Encoder → Encoder
write_hash_le hash e = record { buf = e.buf ++ hash }

abbrev pub max_compact_size : ℕ
max_compact_size = 0x0200_0000

pub data DecodeError : Type 0 where
  unexpected_eof non_canonical_var_int size_too_large : DecodeError
  invalid_data : String → DecodeError
  trailing_bytes : DecodeError

-- The text that `Display` writes, which is that of `to_string`.
unfoldable pub display : DecodeError → String
display unexpected_eof = "unexpected end of input"
display non_canonical_var_int = "non-canonical CompactSize"
display size_too_large = "compact size exceeds maximum"
display (invalid_data message) = message
display trailing_bytes = "trailing bytes after decode"

pub record Decoder : Type 0 where
  pub input : List ℕ
  pub cursor : ℕ

unfoldable pub new_decoder : List ℕ → Decoder
new_decoder input = record { input = input; cursor = 0 }

-- `saturating_sub` is the subtraction of ℕ.
unfoldable pub remaining : Decoder → ℕ
remaining d = length d.input - d.cursor

unfoldable pub is_empty : Decoder → Bool
is_empty d = leb (length d.input) d.cursor

-- A decoding function of the source that leaves with an error of the type `E`.
abbrev pub ReaderOf : Type 0 → Type 0 → Type 0
ReaderOf E A = Decoder → Result E (A × Decoder)

abbrev pub Reader : Type 0 → Type 0
Reader A = ReaderOf DecodeError A

infixl 5 ◌>>=◌ ◌>>◌
unfoldable pub ◌>>=◌ : {E A B : Type 0} → ReaderOf E A → (A → ReaderOf E B) → ReaderOf E B
◌>>=◌ m f d = elim (m d) [ ok (a, d') ↦ f a d' | err e ↦ err e ]

unfoldable pub ◌>>◌ : {E B : Type 0} → ReaderOf E (Unit {0}) → ReaderOf E B → ReaderOf E B
unfolding ◌>>=◌
m >> k = m >>= λ _. k

unfoldable pub pure : {E A : Type 0} → A → ReaderOf E A
pure a d = ok (a, d)

unfoldable pub fail : {E A : Type 0} → E → ReaderOf E A
fail e d = err e

-- `if bad { return Err(e); }`
unfoldable pub fail_if : {E : Type 0} → Bool → E → ReaderOf E (Unit {0})
fail_if true e d = err e
fail_if false e d = ok (tt, d)

unfoldable pub read_slice : ℕ → Reader (List ℕ)
unfolding remaining
read_slice len d =
    if ltb (remaining d) len
    then err unexpected_eof
    else ok (take len (drop d.cursor d.input), record d { cursor = d.cursor + len })

first : List ℕ → ℕ
first [] = 0
first (b ∷ bs) = b

unfoldable pub read_u8 : Reader ℕ
unfolding ◌>>=◌ pure read_slice first
read_u8 = do bytes ← read_slice 1; pure (first bytes)

unfoldable pub read_i8 : Reader ℤ
unfolding ◌>>=◌ pure read_u8
read_i8 = do value ← read_u8; pure (as_signed (2 ^ 8) value)

unfoldable pub read_u16_le : Reader ℕ
unfolding ◌>>=◌ pure read_slice
read_u16_le = do bytes ← read_slice 2; pure (from_le_bytes bytes)

unfoldable pub read_u32_le : Reader ℕ
unfolding ◌>>=◌ pure read_slice
read_u32_le = do bytes ← read_slice 4; pure (from_le_bytes bytes)

unfoldable pub read_i32_le : Reader ℤ
unfolding ◌>>=◌ pure read_u32_le
read_i32_le = do value ← read_u32_le; pure (as_signed (2 ^ 32) value)

unfoldable pub read_u64_le : Reader ℕ
unfolding ◌>>=◌ pure read_slice
read_u64_le = do bytes ← read_slice 8; pure (from_le_bytes bytes)

unfoldable pub read_i64_le : Reader ℤ
unfolding ◌>>=◌ pure read_u64_le
read_i64_le = do value ← read_u64_le; pure (as_signed (2 ^ 64) value)

unfoldable pub read_fixed : ℕ → Reader (List ℕ)
unfolding read_slice
read_fixed n = read_slice n

unfoldable pub read_bytes : ℕ → Reader (List ℕ)
unfolding read_slice
read_bytes len = read_slice len

-- A value behind the prefix must need that prefix.
at_least : ℕ → ℕ → Reader ℕ
unfolding ◌>>◌ pure fail_if
at_least low value = do fail_if (ltb value low) non_canonical_var_int; pure value

pub varint_value : ℕ → Reader ℕ
unfolding ◌>>=◌ pure at_least read_u16_le read_u32_le read_u64_le
varint_value prefix =
    if ltb prefix 0xfd
    then pure prefix
    else if prefix == 0xfd
    then (read_u16_le >>= at_least 0xfd)
    else if prefix == 0xfe
    then (read_u32_le >>= at_least 0x1_0000)
    else (read_u64_le >>= at_least 0x1_0000_0000)

unfoldable pub read_varint : Reader ℕ
unfolding ◌>>=◌ ◌>>◌ pure fail_if read_u8 varint_value
read_varint = do
  prefix ← read_u8
  value ← varint_value prefix
  fail_if (ltb max_compact_size value) size_too_large
  pure value

-- A compact size is at most 2 ^ 25, so the conversion to `usize` succeeds.
unfoldable pub read_var_bytes : Reader (List ℕ)
unfolding ◌>>=◌ read_varint read_bytes
read_var_bytes = do len ← read_varint; read_bytes len

-- `is_utf8` is the test of `String::from_utf8`.
unfoldable pub read_var_str : (List ℕ → Bool) → Reader (List ℕ)
unfolding ◌>>=◌ ◌>>◌ pure fail_if read_var_bytes
read_var_str is_utf8 = do
  bytes ← read_var_bytes
  fail_if (not (is_utf8 bytes)) (invalid_data "invalid utf8 string")
  pure bytes

unfoldable pub read_bool : Reader Bool
unfolding ◌>>=◌ pure read_u8
read_bool = do value ← read_u8; pure (not (value == 0))

unfoldable pub read_hash_le : Reader (List ℕ)
unfolding read_slice
read_hash_le = read_slice 32

-- `for _ in 0..n { out.push(read()?); }`
unfoldable pub read_many : {E A : Type 0} → ℕ → ReaderOf E A → ReaderOf E (List A)
unfolding ◌>>=◌ pure
read_many zero m = pure []
read_many (suc n) m = do a ← m; rest ← read_many n m; pure (a ∷ rest)

-- `if decoder.is_empty() { .. } else { .. }`
unfoldable pub if_empty : {E A : Type 0} → ReaderOf E A → ReaderOf E A → ReaderOf E A
unfolding is_empty
if_empty m k d = if is_empty d then m d else k d

finish : {A : Type 0} → A → Reader A
unfolding is_empty
finish a d = if is_empty d then ok (a, d) else err trailing_bytes

-- `Decoder::new`, the value's reader, and the test that nothing is left.
unfoldable pub decode : {A : Type 0} → Reader A → List ℕ → Result DecodeError A
unfolding ◌>>=◌ new_decoder finish
decode m bytes = elim ((m >>= finish) (new_decoder bytes)) [ ok (a, d) ↦ ok a | err e ↦ err e ]
