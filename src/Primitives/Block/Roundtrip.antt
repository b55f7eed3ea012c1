-- ===== src/Primitives/Block/Roundtrip.antt =====
-- Whole blocks of block.rs: the header, the number of the transactions and each of them.
use fluxd_rust.Prelude.{
  ℕ, ◌≤◌, ◌≡◌, refl, sym, ap, ◌∙◌, List, [], ◌∷◌, ◌++◌, append_assoc, append-nil, length, map, Bool,
  true,
}
use fluxd_rust.Prelude.Result.{ok, ok-injective, >>=-eq-ok}
use fluxd_rust.Primitives.Encoding.{
  Encoder, new_encoder, into_inner, ◌▷◌, write_bytes, write_varint, read_many, max_compact_size,
  new_decoder,
}
use fluxd_rust.Primitives.Encoding.Writes.{writes, varint_bytes, buf-write_bytes, into_inner-buf}
use fluxd_rust.Primitives.Encoding.VarInt.{Reads-read_varint}
use fluxd_rust.Primitives.Encoding.Reads.{Reads, Reads-bind, Reads-map, Reads-pure, All}
use fluxd_rust.Primitives.Encoding.Ends.{Ends-Reads, is_empty-nil, unread-new_decoder}
use fluxd_rust.Primitives.Transaction.{Transaction}
use fluxd_rust.Primitives.Transaction.Errors.{Reads-lift_with, lift_with}
use fluxd_rust.Primitives.Transaction.Encode as Encode
use fluxd_rust.Primitives.Transaction.Decode.{decode_from}
use fluxd_rust.Primitives.Transaction.Decode.Kept.{IsTransaction, kept}
use fluxd_rust.Primitives.Transaction.Decode.Roundtrip.{Reads-encode_with_mode}
use fluxd_rust.Primitives.Block.{
  Block, header_error, transaction_error, encode_header, write_transactions, encode_block,
  read_block, decode_block,
}
use fluxd_rust.Primitives.Block.Headers.{
  IsBlockHeader, kept_header, header_bytes, encode_header-bytes, Reads-read_header,
}

pub record IsBlock (is_utf8 : List ℕ → Bool) (block : Block) : Type 0 where
  pub header_sizes : IsBlockHeader block.block_header
  pub transactions_count : length block.transactions ≤ max_compact_size
  pub transactions_sizes : All (IsTransaction is_utf8) block.transactions

-- A block as its encoding keeps it: the header's fields of its kind, each transaction as its format
-- keeps it.
unfoldable pub kept_block : Block → Block
kept_block block = record {
  block_header = kept_header block.block_header true;
  transactions = map (λ tx. kept tx true) block.transactions;
}

module _ (is_utf8 : List ℕ → Bool) where
  -- The transactions one after the other.
  Reads-write_transactions :
      (txs : List Transaction) (e : Encoder) {e' : Encoder}
      → All (IsTransaction is_utf8) txs
      → write_transactions txs e ≡ ok e'
      → (bs : List ℕ) × (e'.buf ≡ e.buf ++ bs)
        × Reads
            (read_many (length txs) (lift_with transaction_error (decode_from is_utf8 true)))
            bs
            (map (λ tx. kept tx true) txs)
  unfolding write_transactions read_many Encode.consensus_encode
  Reads-write_transactions [] e h k =
      ([], rw (← ok-injective k) (sym (append-nil e.buf)), Reads-pure [])
  Reads-write_transactions (tx ∷ txs) e h k =
      let (bytes, p, q) =
        >>=-eq-ok (Encode.encode_with_mode tx true)
          (λ bytes. write_transactions txs (write_bytes bytes e)) k in
      let (bs, buf, r) = Reads-write_transactions txs (write_bytes bytes e) h.1 q in
      (
        bytes ++ bs,
        rw (buf, buf-write_bytes e bytes) (append_assoc e.buf bytes bs),
        Reads-bind _
            (Reads-lift_with transaction_error (Reads-encode_with_mode is_utf8 true tx h.0 p))
            (Reads-map (λ rest. kept tx true ∷ rest) r refl),
      )

  decode_block-Reads :
      {bs : List ℕ} {block : Block}
      → Reads (read_block is_utf8) bs block
      → decode_block is_utf8 bs ≡ ok block
  unfolding decode_block
  decode_block-Reads {bs} r =
      let (d, e, end) = (Ends-Reads r).run (new_decoder bs) (unread-new_decoder bs) in
      rw (e, decode_block, is_empty-nil d end)

  buf-head :
      (block : Block)
      → (new_encoder
          ▷ write_bytes (encode_header block.block_header true)
          ▷ write_varint (length block.transactions)).buf
        ≡ header_bytes block.block_header true ++ varint_bytes (length block.transactions)
  buf-head block = simp (writes, encode_header-bytes)

  -- Where a block's header and transactions have the sizes and ranges of their types and the
  -- reader's limits, the bytes that it is encoded to are decoded to the block as its encoding keeps
  -- it.
  pub decode_block-encode_block :
      (block : Block) {bytes : List ℕ}
      → IsBlock is_utf8 block
      → encode_block block ≡ ok bytes
      → decode_block is_utf8 bytes ≡ ok (kept_block block)
  unfolding encode_block read_block kept_block
  decode_block-encode_block block {bytes} h k =
      let txs = block.transactions in
      let head = header_bytes block.block_header true in
      let (e, p, q) = >>=-eq-ok (write_transactions txs _) (λ e. ok (into_inner e)) k in
      let (bs, buf, r) = Reads-write_transactions txs _ h.transactions_sizes p in
      let all : head ++ (varint_bytes (length txs) ++ bs) ≡ bytes =
        sym (append_assoc head (varint_bytes (length txs)) bs)
        ∙ (ap (λ (l : List ℕ). l ++ bs) (sym (buf-head block))
            ∙ (sym buf ∙ (sym (into_inner-buf e) ∙ ok-injective q))) in
      rw (← all) (
        decode_block-Reads (
          Reads-bind _
            (Reads-lift_with header_error
              (Reads-read_header block.block_header true h.header_sizes))
            (Reads-bind _
              (Reads-lift_with header_error (Reads-read_varint (length txs) h.transactions_count))
              (Reads-map _ r refl))))
