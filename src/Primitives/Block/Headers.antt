-- ===== src/Primitives/Block/Headers.antt =====
-- The headers of block.rs: decoding gives back the fields that the kind of header has.
use fluxd_rust.Prelude.{
  ℕ, ◌^◌, ◌≤◌, ◌<◌, ◌≡◌, refl, List, [], ◌++◌, length, replicate, Bool, true, false, if◌then◌else◌,
  inl, inr, Bool-cases,
}
use fluxd_rust.Prelude.Int.{leb_ℤ}
use fluxd_rust.Prelude.Result.{ok}
use fluxd_rust.Primitives.Bytes.{to_le_bytes, as_unsigned, IsSigned}
use fluxd_rust.Primitives.Encoding.{Encoder, write_var_bytes, max_compact_size}
use fluxd_rust.Primitives.Encoding.Writes.{writes, var_bytes, buf-write_var_bytes}
use fluxd_rust.Primitives.Encoding.VarInt.{Reads-read_var_bytes}
use fluxd_rust.Primitives.Encoding.Reads.{
  Reads, Reads-bind, Reads-map, Reads-read_u32_le, Reads-read_i32_le, Reads-read_hash_le,
}
use fluxd_rust.Primitives.Encoding.Ends.{decode-Reads}
use fluxd_rust.Primitives.OutPoint
use fluxd_rust.Primitives.OutPoint.{IsOutPoint, null}
use fluxd_rust.Primitives.Transaction.Optional.{bytes_if, buf-write_if, Reads-read_if}
use fluxd_rust.Primitives.Block.{
  BlockHeader, pon_version, is_pon, Seal, write_pon_fields, write_pow_fields, write_header,
  encode_header, read_pon_fields, read_pow_fields, read_seal, read_header, decode_header,
}

-- The sizes and ranges that the fields' types give, with the two vectors in the reader's limit.
pub record IsBlockHeader (header : BlockHeader) : Type 0 where
  pub version_range : IsSigned (2 ^ 32) header.version
  pub prev_block_size : length header.prev_block ≡ 32
  pub merkle_root_size : length header.merkle_root ≡ 32
  pub final_sapling_root_size : length header.final_sapling_root ≡ 32
  pub time_range : header.time < 2 ^ 32
  pub bits_range : header.bits < 2 ^ 32
  pub nonce_size : length header.nonce ≡ 32
  pub solution_size : length header.solution ≤ max_compact_size
  pub nodes_collateral_sizes : IsOutPoint header.nodes_collateral
  pub block_sig_size : length header.block_sig ≤ max_compact_size

-- What a kind of header keeps.
abbrev kept_seal : BlockHeader → Bool → Bool → Seal
kept_seal header pon include_signature =
    if pon
    then (
      replicate 32 0,
      [],
      header.nodes_collateral,
      if include_signature then header.block_sig else [],
    )
    else (header.nonce, header.solution, null, [])

unfoldable pub kept_header : BlockHeader → Bool → BlockHeader
unfolding is_pon null
kept_header header include_signature =
    let seal = kept_seal header (is_pon header) include_signature in
    record {
      version = header.version;
      prev_block = header.prev_block;
      merkle_root = header.merkle_root;
      final_sapling_root = header.final_sapling_root;
      time = header.time;
      bits = header.bits;
      nonce = seal.0;
      solution = seal.1;
      nodes_collateral = seal.2;
      block_sig = seal.3;
    }

module _ (header : BlockHeader) (include_signature : Bool) where
  abbrev seal_bytes : Bool → List ℕ
  seal_bytes pon =
      if pon
      then OutPoint.bytes header.nodes_collateral
        ++ bytes_if include_signature (var_bytes header.block_sig)
      else header.nonce ++ var_bytes header.solution

  abbrev pub header_bytes : List ℕ
  header_bytes =
      to_le_bytes 4 (as_unsigned (2 ^ 32) header.version)
      ++ (header.prev_block
          ++ (header.merkle_root
              ++ (header.final_sapling_root
                  ++ (to_le_bytes 4 header.time
                      ++ (to_le_bytes 4 header.bits
                          ++ seal_bytes (leb_ℤ pon_version header.version))))))

  pub buf-write_header :
      (e : Encoder) → (write_header header include_signature e).buf ≡ e.buf ++ header_bytes
  unfolding write_header is_pon write_pon_fields write_pow_fields
  buf-write_header e = elim (Bool-cases (leb_ℤ pon_version header.version)) [
    | inl pon ↦ rw pon (
        simp (
          writes,
          λ (e : Encoder).
              buf-write_if include_signature (write_var_bytes header.block_sig) _ e
                (buf-write_var_bytes e header.block_sig),
        ))
    | inr pow ↦ rw pow (simp writes)
  ]

  module _ (h : IsBlockHeader header) where
    Reads-read_seal :
        (pon : Bool)
        → Reads
            (if pon then read_pon_fields include_signature else read_pow_fields)
            (seal_bytes pon)
            (kept_seal header pon include_signature)
    unfolding read_pon_fields read_pow_fields
    Reads-read_seal true =
        Reads-bind _
          (OutPoint.Reads-consensus_decode header.nodes_collateral h.nodes_collateral_sizes)
          (Reads-map _
            (Reads-read_if include_signature []
              (Reads-read_var_bytes header.block_sig h.block_sig_size))
            refl)
    Reads-read_seal false =
        Reads-bind _ (Reads-read_hash_le header.nonce h.nonce_size)
          (Reads-map _ (Reads-read_var_bytes header.solution h.solution_size) refl)

    pub Reads-read_header :
        Reads (read_header include_signature) header_bytes (kept_header header include_signature)
    unfolding read_header read_seal kept_header is_pon
    Reads-read_header = Reads-bind _ (Reads-read_i32_le header.version h.version_range) (
        Reads-bind _ (Reads-read_hash_le header.prev_block h.prev_block_size) (
          Reads-bind _ (Reads-read_hash_le header.merkle_root h.merkle_root_size) (
            Reads-bind _ (Reads-read_hash_le header.final_sapling_root h.final_sapling_root_size) (
              Reads-bind _ (Reads-read_u32_le header.time h.time_range) (
                Reads-bind _ (Reads-read_u32_le header.bits h.bits_range)
                  (Reads-map _ (Reads-read_seal (leb_ℤ pon_version header.version)) refl))))))

pub encode_header-bytes :
    (header : BlockHeader) (include_signature : Bool)
    → encode_header header include_signature ≡ header_bytes header include_signature
unfolding encode_header
encode_header-bytes header include_signature = simp (writes, buf-write_header)

-- Decoding an encoded header, with the signature or without it, gives back what its kind keeps:
-- the collateral and the signature of a proof of node, or the nonce and the solution.
pub decode_header-encode_header :
    (header : BlockHeader) (include_signature : Bool)
    → IsBlockHeader header
    → decode_header include_signature (encode_header header include_signature)
      ≡ ok (kept_header header include_signature)
unfolding decode_header
decode_header-encode_header header include_signature h =
    rw (encode_header-bytes header include_signature)
      (decode-Reads (Reads-read_header header include_signature h))
