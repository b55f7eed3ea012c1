-- ===== src/Primitives/Block.antt =====
-- crates/primitives/src/block.rs: block headers of both kinds and blocks.
pub mod Headers
pub mod Roundtrip
use fluxd_rust.Prelude.{ℕ, List, [], ◌∷◌, length, replicate, Bool, true, false, if◌then◌else◌}
use fluxd_rust.Prelude.Int.{ℤ, pos, leb_ℤ}
use fluxd_rust.Prelude.Result.{Result, ok, err, and_then}
use fluxd_rust.Primitives.Encoding.{
  Encoder, new_encoder, into_inner, ◌▷◌, write_bytes, write_u32_le, write_i32_le, write_varint,
  write_var_bytes, write_hash_le, DecodeError, trailing_bytes, Reader, ReaderOf, ◌>>=◌, pure,
  new_decoder, is_empty, read_u32_le, read_i32_le, read_varint, read_var_bytes, read_hash_le,
  read_many, decode,
}
use fluxd_rust.Primitives.OutPoint
use fluxd_rust.Primitives.OutPoint.{OutPoint, null}
use fluxd_rust.Primitives.Transaction.{Transaction}
use fluxd_rust.Primitives.Transaction.Errors.{
  TransactionDecodeError, TransactionEncodeError, lift_with,
}
use fluxd_rust.Primitives.Transaction.Encode as Encode
use fluxd_rust.Primitives.Transaction.Optional.{write_if, read_if}
use fluxd_rust.Primitives.Transaction.Decode.{decode_from}

abbrev pub pon_version : ℤ
pon_version = pos 100

pub record BlockHeader : Type 0 where
  pub version : ℤ
  pub prev_block : List ℕ
  pub merkle_root : List ℕ
  pub final_sapling_root : List ℕ
  pub time : ℕ
  pub bits : ℕ
  pub nonce : List ℕ
  pub solution : List ℕ
  pub nodes_collateral : OutPoint
  pub block_sig : List ℕ

unfoldable pub is_pon : BlockHeader → Bool
is_pon header = leb_ℤ pon_version header.version

write_pon_fields : BlockHeader → Bool → Encoder → Encoder
unfolding OutPoint.consensus_encode write_if
write_pon_fields header include_signature e =
    e
    ▷ OutPoint.consensus_encode header.nodes_collateral
    ▷ write_if include_signature (write_var_bytes header.block_sig)

write_pow_fields : BlockHeader → Encoder → Encoder
write_pow_fields header e = e ▷ write_hash_le header.nonce ▷ write_var_bytes header.solution

unfoldable pub write_header : BlockHeader → Bool → Encoder → Encoder
unfolding is_pon write_pon_fields write_pow_fields
write_header header include_signature e =
    let head =
      e
      ▷ write_i32_le header.version
      ▷ write_hash_le header.prev_block
      ▷ write_hash_le header.merkle_root
      ▷ write_hash_le header.final_sapling_root
      ▷ write_u32_le header.time
      ▷ write_u32_le header.bits in
    if is_pon header
    then write_pon_fields header include_signature head
    else write_pow_fields header head

-- `encode_with_mode`
unfoldable pub encode_header : BlockHeader → Bool → List ℕ
unfolding write_header
encode_header header include_signature =
    into_inner (write_header header include_signature new_encoder)

-- `sha256d` is a third-party function.
unfoldable pub hash : (List ℕ → List ℕ) → BlockHeader → List ℕ
unfolding encode_header
hash sha256d header = sha256d (encode_header header false)

-- What the two kinds of header do not share: nonce, solution, collateral and signature.
abbrev pub Seal : Type 0
Seal = List ℕ × List ℕ × OutPoint × List ℕ

read_pon_fields : Bool → Reader Seal
unfolding ◌>>=◌ pure OutPoint.consensus_decode read_if read_var_bytes
read_pon_fields include_signature = do
  nodes_collateral ← OutPoint.consensus_decode
  block_sig ← read_if include_signature [] read_var_bytes
  pure (replicate 32 0, [], nodes_collateral, block_sig)

read_pow_fields : Reader Seal
unfolding ◌>>=◌ pure read_hash_le read_var_bytes null
read_pow_fields = do
  nonce ← read_hash_le
  solution ← read_var_bytes
  pure (nonce, solution, null, [])

read_seal : ℤ → Bool → Reader Seal
unfolding read_pon_fields read_pow_fields
read_seal version include_signature =
    if leb_ℤ pon_version version then read_pon_fields include_signature else read_pow_fields

-- `BlockHeader::consensus_decode_from`
unfoldable pub read_header : Bool → Reader BlockHeader
unfolding ◌>>=◌ pure read_i32_le read_hash_le read_u32_le read_seal
read_header include_signature = do
  version ← read_i32_le
  prev_block ← read_hash_le
  merkle_root ← read_hash_le
  final_sapling_root ← read_hash_le
  time ← read_u32_le
  bits ← read_u32_le
  seal ← read_seal version include_signature
  pure (record {
    version = version;
    prev_block = prev_block;
    merkle_root = merkle_root;
    final_sapling_root = final_sapling_root;
    time = time;
    bits = bits;
    nonce = seal.0;
    solution = seal.1;
    nodes_collateral = seal.2;
    block_sig = seal.3;
  })

-- The test that nothing is left is that of `decode`.
unfoldable pub decode_header : Bool → List ℕ → Result DecodeError BlockHeader
unfolding decode read_header
decode_header include_signature bytes = decode (read_header include_signature) bytes

pub record Block : Type 0 where
  pub block_header : BlockHeader
  pub transactions : List Transaction

-- `encoder.write_bytes(&tx.consensus_encode()?);` for each transaction.
unfoldable pub write_transactions :
    List Transaction → Encoder → Result TransactionEncodeError Encoder
unfolding Encode.consensus_encode
write_transactions [] e = ok e
write_transactions (tx ∷ txs) e =
    and_then (Encode.consensus_encode tx) λ bytes. write_transactions txs (write_bytes bytes e)

unfoldable pub encode_block : Block → Result TransactionEncodeError (List ℕ)
unfolding encode_header write_transactions
encode_block block =
    and_then
      (write_transactions block.transactions (
        new_encoder
        ▷ write_bytes (encode_header block.block_header true)
        ▷ write_varint (length block.transactions)))
      λ e. ok (into_inner e)

pub data BlockDecodeError : Type 0 where
  header_error : DecodeError → BlockDecodeError
  transaction_error : TransactionDecodeError → BlockDecodeError

module _ (is_utf8 : List ℕ → Bool) where
  unfoldable pub read_block : ReaderOf BlockDecodeError Block
  unfolding ◌>>=◌ pure lift_with read_header read_varint read_many decode_from
  read_block = do
    header ← lift_with header_error (read_header true)
    count ← lift_with header_error read_varint
    transactions ← read_many count (lift_with transaction_error (decode_from is_utf8 true))
    pure (record { block_header = header; transactions = transactions })

  unfoldable pub decode_block : List ℕ → Result BlockDecodeError Block
  unfolding read_block new_decoder is_empty
  decode_block bytes = elim (read_block (new_decoder bytes)) [
    | ok (block, d) ↦ if is_empty d then ok block else err (header_error trailing_bytes)
    | err e ↦ err e
  ]
