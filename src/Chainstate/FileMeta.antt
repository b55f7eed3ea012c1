-- ===== src/Chainstate/FileMeta.antt =====
-- crates/chainstate/src/filemeta.rs: what is recorded of each flat file, and the keys of that.
use fluxd_rust.Prelude.{
  ℕ, ◌+◌, ◌^◌, ◌<◌, ◌≡◌, refl, ap, ◌∙◌, List, [], ◌∷◌, ◌++◌, length, length-append, drop, Option,
  none, some, if◌then◌else◌, ◌==◌, ==_iff, arith,
}
use fluxd_rust.Prelude.Int.{ℤ}
use fluxd_rust.Prelude.Result.{to_option}
use fluxd_rust.Prelude.Slices.{starts_with, starts_with-append, drop-append}
use fluxd_rust.Primitives.Bytes.{
  to_le_bytes, from_le_bytes, from_le_bytes-to_le_bytes, length-to_le_bytes, as_unsigned, IsSigned,
}
use fluxd_rust.Primitives.Encoding.{
  new_encoder, into_inner, ◌▷◌, write_u32_le, write_u64_le, write_i32_le, Reader, ◌>>=◌, pure,
  read_u32_le, read_u64_le, read_i32_le, decode,
}
use fluxd_rust.Primitives.Encoding.Writes.{writes}
use fluxd_rust.Primitives.Encoding.Reads.{
  Reads, Reads-bind, Reads-map, Reads-read_u32_le, Reads-read_u64_le, Reads-read_i32_le,
}
use fluxd_rust.Primitives.Encoding.Ends.{decode-Reads}

pub record FlatFileInfo : Type 0 where
  pub blocks : ℕ
  pub size : ℕ
  pub height_first : ℤ
  pub height_last : ℤ
  pub time_first : ℕ
  pub time_last : ℕ
  pub flags : ℕ

pub record IsFlatFileInfo (f : FlatFileInfo) : Type 0 where
  pub blocks_range : f.blocks < 2 ^ 32
  pub size_range : f.size < 2 ^ 64
  pub height_first_range : IsSigned (2 ^ 32) f.height_first
  pub height_last_range : IsSigned (2 ^ 32) f.height_last
  pub time_first_range : f.time_first < 2 ^ 32
  pub time_last_range : f.time_last < 2 ^ 32
  pub flags_range : f.flags < 2 ^ 32

unfoldable pub encode : FlatFileInfo → List ℕ
encode f = into_inner (
    new_encoder
    ▷ write_u32_le f.blocks
    ▷ write_u64_le f.size
    ▷ write_i32_le f.height_first
    ▷ write_i32_le f.height_last
    ▷ write_u32_le f.time_first
    ▷ write_u32_le f.time_last
    ▷ write_u32_le f.flags)

unfoldable pub read_flat_file_info : Reader FlatFileInfo
unfolding ◌>>=◌ pure read_u32_le read_u64_le read_i32_le
read_flat_file_info = do
  blocks ← read_u32_le
  size ← read_u64_le
  height_first ← read_i32_le
  height_last ← read_i32_le
  time_first ← read_u32_le
  time_last ← read_u32_le
  flags ← read_u32_le
  pure (record {
    blocks = blocks;
    size = size;
    height_first = height_first;
    height_last = height_last;
    time_first = time_first;
    time_last = time_last;
    flags = flags;
  })

-- The test that nothing is left is that of `decode`; each error becomes `None`.
unfoldable pub decode_info : List ℕ → Option FlatFileInfo
unfolding decode read_flat_file_info
decode_info bytes = to_option (decode read_flat_file_info bytes)

abbrev i32_bytes : ℤ → List ℕ
i32_bytes z = to_le_bytes 4 (as_unsigned (2 ^ 32) z)

abbrev info_bytes : FlatFileInfo → List ℕ
info_bytes f =
    to_le_bytes 4 f.blocks
    ++ (to_le_bytes 8 f.size
        ++ (i32_bytes f.height_first
            ++ (i32_bytes f.height_last
                ++ (to_le_bytes 4 f.time_first
                    ++ (to_le_bytes 4 f.time_last ++ to_le_bytes 4 f.flags)))))

encode-info_bytes : (f : FlatFileInfo) → encode f ≡ info_bytes f
unfolding encode
encode-info_bytes f = simp writes

Reads-read_flat_file_info :
    (f : FlatFileInfo) → IsFlatFileInfo f → Reads read_flat_file_info (info_bytes f) f
unfolding read_flat_file_info
Reads-read_flat_file_info f h = Reads-bind _ (Reads-read_u32_le f.blocks h.blocks_range) (
    Reads-bind _ (Reads-read_u64_le f.size h.size_range) (
      Reads-bind _ (Reads-read_i32_le f.height_first h.height_first_range) (
        Reads-bind _ (Reads-read_i32_le f.height_last h.height_last_range) (
          Reads-bind _ (Reads-read_u32_le f.time_first h.time_first_range) (
            Reads-bind _ (Reads-read_u32_le f.time_last h.time_last_range)
              (Reads-map _ (Reads-read_u32_le f.flags h.flags_range) refl))))))

-- The record of a file, within the ranges of its types, is read back as it was written.
decode_info-encode : (f : FlatFileInfo) → IsFlatFileInfo f → decode_info (encode f) ≡ some f
unfolding decode_info
decode_info-encode f h = ap to_option (
    ap (decode read_flat_file_info) (encode-info_bytes f)
    ∙ decode-Reads (Reads-read_flat_file_info f h))

-- `b"flatfiles:blocks:file:"` and `b"flatfiles:undo:file:"`
abbrev pub block_file_info_prefix : List ℕ
block_file_info_prefix =
    b'f' ∷ b'l' ∷ b'a' ∷ b't' ∷ b'f' ∷ b'i' ∷ b'l' ∷ b'e' ∷ b's' ∷ b':' ∷ b'b' ∷ b'l' ∷ b'o' ∷ b'c'
    ∷ b'k' ∷ b's' ∷ b':' ∷ b'f' ∷ b'i' ∷ b'l' ∷ b'e' ∷ b':' ∷ []

abbrev pub undo_file_info_prefix : List ℕ
undo_file_info_prefix =
    b'f' ∷ b'l' ∷ b'a' ∷ b't' ∷ b'f' ∷ b'i' ∷ b'l' ∷ b'e' ∷ b's' ∷ b':' ∷ b'u' ∷ b'n' ∷ b'd' ∷ b'o'
    ∷ b':' ∷ b'f' ∷ b'i' ∷ b'l' ∷ b'e' ∷ b':' ∷ []

info_key : List ℕ → ℕ → List ℕ
info_key prefix file_id = prefix ++ to_le_bytes 4 file_id

parse_info_key : List ℕ → List ℕ → Option ℕ
unfolding starts_with
parse_info_key prefix key =
    if length key == length prefix + 4
    then if starts_with key prefix then some (from_le_bytes (drop (length prefix) key)) else none
    else none

unfoldable pub block_file_info_key : ℕ → List ℕ
unfolding info_key
block_file_info_key file_id = info_key block_file_info_prefix file_id

unfoldable pub undo_file_info_key : ℕ → List ℕ
unfolding info_key
undo_file_info_key file_id = info_key undo_file_info_prefix file_id

unfoldable pub parse_block_file_info_key : List ℕ → Option ℕ
unfolding parse_info_key
parse_block_file_info_key key = parse_info_key block_file_info_prefix key

unfoldable pub parse_undo_file_info_key : List ℕ → Option ℕ
unfolding parse_info_key
parse_undo_file_info_key key = parse_info_key undo_file_info_prefix key

parse-info_key :
    (prefix : List ℕ) (id : ℕ) → id < 2 ^ 32 → parse_info_key prefix (info_key prefix id) ≡ some id
unfolding parse_info_key info_key
parse-info_key prefix id h =
    let len : length (prefix ++ to_le_bytes 4 id) ≡ length prefix + 4 =
      omega (arith, length-append {0} prefix (to_le_bytes 4 id), length-to_le_bytes 4 id) in
    rw (
      (==_iff _ _).1 len,
      starts_with-append prefix (to_le_bytes 4 id),
      drop-append (length prefix) prefix (to_le_bytes 4 id) refl,
      from_le_bytes-to_le_bytes 4 id h,
    )

-- The lengths of the keys differ.
undo-block_key :
    (id : ℕ) → parse_info_key undo_file_info_prefix (info_key block_file_info_prefix id) ≡ none
unfolding parse_info_key info_key to_le_bytes
undo-block_key id = refl

block-undo_key :
    (id : ℕ) → parse_info_key block_file_info_prefix (info_key undo_file_info_prefix id) ≡ none
unfolding parse_info_key info_key to_le_bytes
block-undo_key id = refl

-- The file id, a u32, comes back from each kind of key, and neither kind of key is read as the
-- other.
parse_keys :
    (id : ℕ)
    → id < 2 ^ 32
    → (parse_block_file_info_key (block_file_info_key id) ≡ some id)
      × (parse_undo_file_info_key (undo_file_info_key id) ≡ some id)
      × (parse_undo_file_info_key (block_file_info_key id) ≡ none)
      × (parse_block_file_info_key (undo_file_info_key id) ≡ none)
unfolding block_file_info_key undo_file_info_key parse_block_file_info_key parse_undo_file_info_key
parse_keys id h = (
  parse-info_key block_file_info_prefix id h,
  parse-info_key undo_file_info_prefix id h,
  undo-block_key id,
  block-undo_key id,
)
