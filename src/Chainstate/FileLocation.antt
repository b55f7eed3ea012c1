-- ===== src/Chainstate/FileLocation.antt =====
-- crates/chainstate/src/flatfiles.rs: where a block or an undo record stands in the flat files.
use fluxd_rust.Prelude.{
  ℕ, ◌^◌, ◌<◌, ◌≡◌, List, ◌++◌, length, length-append, length-take, length-drop, take, drop,
  take-append-drop, Option, none, some, if◌then◌else◌, ◌==◌, ==_iff, arith,
}
use fluxd_rust.Prelude.Slices.{take-append, drop-append, take_all, drop-add}
use fluxd_rust.Primitives.Bytes.{
  to_le_bytes, from_le_bytes, length-to_le_bytes, from_le_bytes-to_le_bytes,
  to_le_bytes-from_le_bytes_of, IsBytes, IsBytes-take, IsBytes-drop,
}

pub record FileLocation : Type 0 where
  pub file_id : ℕ
  pub offset : ℕ
  pub len : ℕ

pub record IsFileLocation (l : FileLocation) : Type 0 where
  pub file_id_range : l.file_id < 2 ^ 32
  pub offset_range : l.offset < 2 ^ 64
  pub len_range : l.len < 2 ^ 32

unfoldable pub encode : FileLocation → List ℕ
encode l = to_le_bytes 4 l.file_id ++ (to_le_bytes 8 l.offset ++ to_le_bytes 4 l.len)

-- The slices `bytes[0..4]`, `bytes[4..12]` and `bytes[12..16]`.
unfoldable pub decode : List ℕ → Option FileLocation
decode bytes =
    if length bytes == 16
    then some (record {
      file_id = from_le_bytes (take 4 bytes);
      offset = from_le_bytes (take 8 (drop 4 bytes));
      len = from_le_bytes (take 4 (drop 12 bytes));
    })
    else none

pub length-encode : (l : FileLocation) → length (encode l) ≡ 16
unfolding encode
length-encode l = omega (
  arith,
  length-append {0} (to_le_bytes 4 l.file_id) (to_le_bytes 8 l.offset ++ to_le_bytes 4 l.len),
  length-append {0} (to_le_bytes 8 l.offset) (to_le_bytes 4 l.len),
  length-to_le_bytes 4 l.file_id,
  length-to_le_bytes 8 l.offset,
  length-to_le_bytes 4 l.len,
)

module _ (l : FileLocation) (h : IsFileLocation l) where
  file_id_slice : from_le_bytes (take 4 (encode l)) ≡ l.file_id
  unfolding encode
  file_id_slice =
      rw (take-append 4 (to_le_bytes 4 l.file_id) _ (length-to_le_bytes 4 l.file_id))
        (from_le_bytes-to_le_bytes 4 l.file_id h.file_id_range)

  offset_slice : from_le_bytes (take 8 (drop 4 (encode l))) ≡ l.offset
  unfolding encode
  offset_slice =
      rw
        (
          drop-append 4 (to_le_bytes 4 l.file_id) _ (length-to_le_bytes 4 l.file_id),
          take-append 8 (to_le_bytes 8 l.offset) (to_le_bytes 4 l.len)
              (length-to_le_bytes 8 l.offset),
        )
        (from_le_bytes-to_le_bytes 8 l.offset h.offset_range)

  len_slice : from_le_bytes (take 4 (drop 12 (encode l))) ≡ l.len
  unfolding encode
  len_slice =
      rw
        (
          drop-add 4 8 (encode l),
          drop-append 4 (to_le_bytes 4 l.file_id) _ (length-to_le_bytes 4 l.file_id),
          drop-append 8 (to_le_bytes 8 l.offset) (to_le_bytes 4 l.len)
              (length-to_le_bytes 8 l.offset),
          take_all 4 (to_le_bytes 4 l.len) (length-to_le_bytes 4 l.len),
        )
        (from_le_bytes-to_le_bytes 4 l.len h.len_range)

  -- A location is read back from its 16 bytes.
  pub decode-encode : decode (encode l) ≡ some l
  unfolding decode
  decode-encode =
      rw ((==_iff _ _).1 (length-encode l)) (λ i.
        some (record { file_id = file_id_slice i; offset = offset_slice i; len = len_slice i }))

-- Every 16 bytes are the encoding of the location that they decode to.
encode-decode :
    (bytes : List ℕ)
    → IsBytes bytes
    → length bytes ≡ 16
    → (l : FileLocation) × (decode bytes ≡ some l) × (encode l ≡ bytes)
unfolding decode encode
encode-decode bytes good h = (
  record {
    file_id = from_le_bytes (take 4 bytes);
    offset = from_le_bytes (take 8 (drop 4 bytes));
    len = from_le_bytes (take 4 (drop 12 bytes));
  },
  rw ((==_iff _ _).1 h),
  rw
      (
        to_le_bytes-from_le_bytes_of 4 (take 4 bytes) (IsBytes-take 4 bytes good)
            (omega (arith, length-take {0} 4 bytes)),
        to_le_bytes-from_le_bytes_of 8 (take 8 (drop 4 bytes))
            (IsBytes-take 8 _ (IsBytes-drop 4 bytes good))
            (omega (arith, length-take {0} 8 (drop 4 bytes), length-drop {0} 4 bytes)),
        to_le_bytes-from_le_bytes_of 4 (take 4 (drop 12 bytes))
            (IsBytes-take 4 _ (IsBytes-drop 12 bytes good))
            (omega (arith, length-take {0} 4 (drop 12 bytes), length-drop {0} 12 bytes)),
        take_all 4 (drop 12 bytes) (omega (arith, length-drop {0} 12 bytes)),
        drop-add 4 8 bytes,
        take-append-drop 8 (drop 4 bytes),
      )
      (take-append-drop 4 bytes),
)
