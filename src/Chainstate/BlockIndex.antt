-- ===== src/Chainstate/BlockIndex.antt =====
-- crates/chainstate/src/blockindex.rs: the index entry of a block, in its two formats.
use fluxd_rust.Prelude.{
  ℕ, ◌^◌, ◌<◌, ◌≡◌, refl, List, ◌++◌, length, length-append, take, drop, false, Option, none, some,
  replicate, if◌then◌else◌, ◌==◌, arith,
}
use fluxd_rust.Prelude.Slices.{drop-append, take-append, take_all, drop-add}
use fluxd_rust.Primitives.Bytes.{
  to_le_bytes, from_le_bytes, from_le_bytes-to_le_bytes, length-to_le_bytes,
}
use fluxd_rust.Chainstate.FileLocation
use fluxd_rust.Chainstate.FileLocation.{FileLocation, IsFileLocation}

abbrev pub status_have_data : ℕ
status_have_data = 1

pub record BlockIndexEntry : Type 0 where
  pub block : FileLocation
  pub undo : Option FileLocation
  pub tx_count : ℕ
  pub status : ℕ

undo_bytes : Option FileLocation → List ℕ
undo_bytes none = replicate 16 0
undo_bytes (some l) = FileLocation.encode l

-- The parts of the 40 bytes, in order.
unfoldable pub encode : BlockIndexEntry → List ℕ
unfolding FileLocation.encode undo_bytes
encode e =
    FileLocation.encode e.block
    ++ (undo_bytes e.undo ++ (to_le_bytes 4 e.tx_count ++ to_le_bytes 4 e.status))

-- `.filter(|location| location.len != 0)`
nonempty : Option FileLocation → Option FileLocation
nonempty none = none
nonempty (some l) = if l.len == 0 then none else some l

decode_v1 : List ℕ → Option BlockIndexEntry
decode_v1 bytes = elim (FileLocation.decode bytes) [
  | none ↦ none
  | some block ↦
      some (record { block = block; undo = none; tx_count = 0; status = status_have_data })
]

decode_v2 : List ℕ → Option BlockIndexEntry
unfolding nonempty
decode_v2 bytes = elim (FileLocation.decode (take 16 bytes)) [
  | none ↦ none
  | some block ↦ some (record {
    block = block;
    undo = nonempty (FileLocation.decode (take 16 (drop 16 bytes)));
    tx_count = from_le_bytes (take 4 (drop 32 bytes));
    status = from_le_bytes (take 4 (drop 36 bytes));
  })
]

unfoldable pub decode : List ℕ → Option BlockIndexEntry
unfolding decode_v1 decode_v2
decode bytes =
    if length bytes == 16
    then decode_v1 bytes
    else if length bytes == 40
    then decode_v2 bytes
    else none

pub record IsBlockIndexEntry (e : BlockIndexEntry) : Type 0 where
  pub block_range : IsFileLocation e.block
  pub undo_range : (l : FileLocation) → e.undo ≡ some l → IsFileLocation l
  pub undo_nonempty : (l : FileLocation) → e.undo ≡ some l → 0 < l.len
  pub tx_count_range : e.tx_count < 2 ^ 32
  pub status_range : e.status < 2 ^ 32

length-undo_bytes : (u : Option FileLocation) → length (undo_bytes u) ≡ 16
unfolding undo_bytes
length-undo_bytes none = refl
length-undo_bytes (some l) = FileLocation.length-encode l

nonempty-undo_bytes :
    (u : Option FileLocation)
    → ((l : FileLocation) → u ≡ some l → IsFileLocation l)
    → ((l : FileLocation) → u ≡ some l → 0 < l.len)
    → nonempty (FileLocation.decode (undo_bytes u)) ≡ u
unfolding undo_bytes nonempty
nonempty-undo_bytes none range pos = unfold FileLocation.decode from_le_bytes in refl
nonempty-undo_bytes (some l) range pos =
    let t : l.len == 0 ≡ false = ground (arith, pos l refl) in
    rw (FileLocation.decode-encode l (range l refl), t)

module _ (e : BlockIndexEntry) (h : IsBlockIndexEntry e) where
  abbrev counts : List ℕ
  counts = to_le_bytes 4 e.tx_count ++ to_le_bytes 4 e.status

  drop_16 : drop 16 (encode e) ≡ undo_bytes e.undo ++ counts
  unfolding encode
  drop_16 = drop-append 16 (FileLocation.encode e.block) _ (FileLocation.length-encode e.block)

  drop_32 : drop 32 (encode e) ≡ counts
  drop_32 =
      rw (drop-add 16 16 (encode e), drop_16)
        (drop-append 16 (undo_bytes e.undo) counts (length-undo_bytes e.undo))

  drop_36 : drop 36 (encode e) ≡ to_le_bytes 4 e.status
  drop_36 =
      rw (drop-add 32 4 (encode e), drop_32)
        (drop-append 4 (to_le_bytes 4 e.tx_count) _ (length-to_le_bytes 4 e.tx_count))

  take_16 : take 16 (encode e) ≡ FileLocation.encode e.block
  unfolding encode
  take_16 = take-append 16 (FileLocation.encode e.block) _ (FileLocation.length-encode e.block)

  pub length-encode : length (encode e) ≡ 40
  unfolding encode
  length-encode = omega (
    arith,
    length-append {0} (FileLocation.encode e.block) (undo_bytes e.undo ++ counts),
    length-append {0} (undo_bytes e.undo) counts,
    length-append {0} (to_le_bytes 4 e.tx_count) (to_le_bytes 4 e.status),
    FileLocation.length-encode e.block,
    length-undo_bytes e.undo,
    length-to_le_bytes 4 e.tx_count,
    length-to_le_bytes 4 e.status,
  )

  -- An entry within the ranges of its types, its undo location not empty if there is one, is read
  -- back from the bytes that it is written in.
  decode-encode_v2 : decode (encode e) ≡ some e
  unfolding decode decode_v2
  decode-encode_v2 = rw (
    length-encode,
    decode_v2,
    take_16,
    FileLocation.decode-encode e.block h.block_range,
    drop_16,
    drop_32,
    drop_36,
    take-append 16 (undo_bytes e.undo) counts (length-undo_bytes e.undo),
    take-append 4 (to_le_bytes 4 e.tx_count) (to_le_bytes 4 e.status)
        (length-to_le_bytes 4 e.tx_count),
    take_all 4 (to_le_bytes 4 e.status) (length-to_le_bytes 4 e.status),
    from_le_bytes-to_le_bytes 4 e.tx_count h.tx_count_range,
    from_le_bytes-to_le_bytes 4 e.status h.status_range,
    nonempty-undo_bytes e.undo h.undo_range h.undo_nonempty,
  )

-- The 16 bytes of the first format, a bare location in range, are read as an entry without undo
-- data.
decode-v1 :
    (l : FileLocation)
    → IsFileLocation l
    → decode (FileLocation.encode l)
      ≡ some (record { block = l; undo = none; tx_count = 0; status = status_have_data })
unfolding decode decode_v1
decode-v1 l h = rw (FileLocation.length-encode l, decode_v1, FileLocation.decode-encode l h)
