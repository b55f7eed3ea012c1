-- ===== src/Chainstate/Undo.antt =====
-- crates/chainstate/src/undo.rs: what is kept of a connected block to disconnect it again.
pub mod Roundtrip
use Prim.Native.String.{String}
use fluxd_rust.Prelude.{
  ℕ, ◌+◌, ◌%◌, ◌^◌, List, [], ◌∷◌, ◌++◌, length, Bool, true, false, not, ◌&&◌, Option, none, some,
  if◌then◌else◌, ◌==◌,
}
use fluxd_rust.Prelude.Result.{Result, ok, err}
use fluxd_rust.Primitives.Encoding.{
  Encoder, new_encoder, into_inner, ◌▷◌, write_u8, write_u32_le, write_var_bytes, Decoder, Reader,
  ◌>>=◌, ◌>>◌, pure, fail_if, read_u8, read_u32_le, read_var_bytes, read_many, decode, DecodeError,
  invalid_data,
}
use fluxd_rust.Primitives.Encoding.Vectors.{write_each}
use fluxd_rust.Primitives.OutPoint
use fluxd_rust.Primitives.OutPoint.{OutPoint}
use fluxd_rust.Fluxnode.Record
use fluxd_rust.Fluxnode.Record.{FluxnodeRecord, decode_fluxnode_record}
use fluxd_rust.Chainstate.Utxo
use fluxd_rust.Chainstate.Utxo.{UtxoEntry, decode_utxo_entry}

abbrev pub block_undo_version : ℕ
block_undo_version = 2

pub record SpentOutput : Type 0 where
  pub outpoint : OutPoint
  pub entry : UtxoEntry

pub record FluxnodeUndo : Type 0 where
  pub collateral : OutPoint
  pub prev : Option FluxnodeRecord

pub record BlockUndo : Type 0 where
  pub prev_sprout_tree : List ℕ
  pub prev_sapling_tree : List ℕ
  pub spent : List SpentOutput
  pub fluxnode : List FluxnodeUndo
  pub fluxnode_extra : List FluxnodeUndo

write_spent : SpentOutput → Encoder → Encoder
unfolding OutPoint.consensus_encode
write_spent s e = e ▷ OutPoint.consensus_encode s.outpoint ▷ write_var_bytes (Utxo.encode s.entry)

write_prev : Option FluxnodeRecord → Encoder → Encoder
write_prev none e = e ▷ write_u8 0
write_prev (some r) e = e ▷ write_u8 1 ▷ write_var_bytes (Record.encode r)

write_fluxnode_undo : FluxnodeUndo → Encoder → Encoder
unfolding OutPoint.consensus_encode write_prev
write_fluxnode_undo u e = e ▷ OutPoint.consensus_encode u.collateral ▷ write_prev u.prev

unfoldable pub encode : BlockUndo → List ℕ
unfolding write_each write_spent write_fluxnode_undo
encode u = into_inner (
    new_encoder
    ▷ write_u8 block_undo_version
    ▷ write_var_bytes u.prev_sprout_tree
    ▷ write_var_bytes u.prev_sapling_tree
    ▷ write_u32_le (length u.spent % 2 ^ 32)
    ▷ write_each write_spent u.spent
    ▷ write_u32_le (length u.fluxnode % 2 ^ 32)
    ▷ write_each write_fluxnode_undo u.fluxnode
    ▷ write_u32_le (length u.fluxnode_extra % 2 ^ 32)
    ▷ write_each write_fluxnode_undo u.fluxnode_extra)

-- `.map_err(|_| DecodeError::InvalidData(message))?`
or_invalid : {A : Type 0} → String → Result DecodeError A → Reader A
or_invalid message (ok a) d = ok (a, d)
or_invalid message (err e) d = err (invalid_data message)

read_spent : Reader SpentOutput
unfolding ◌>>=◌ pure OutPoint.consensus_decode read_var_bytes decode_utxo_entry or_invalid
read_spent = do
  outpoint ← OutPoint.consensus_decode
  entry_bytes ← read_var_bytes
  entry ← or_invalid "invalid utxo entry in undo" (decode_utxo_entry entry_bytes)
  pure (record { outpoint = outpoint; entry = entry })

-- A count and that many items.
read_counted : {A : Type 0} → Reader A → Reader (List A)
unfolding ◌>>=◌ read_u32_le read_many
read_counted m = do len ← read_u32_le; read_many len m

module _ (is_utf8 : List ℕ → Bool) where
  prev_of_flag : ℕ → Reader (Option FluxnodeRecord)
  unfolding ◌>>=◌ pure read_var_bytes decode_fluxnode_record or_invalid
  prev_of_flag flag = if flag == 0 then pure none else (do
    record_bytes ← read_var_bytes
    r ← or_invalid "invalid fluxnode record in undo" (decode_fluxnode_record is_utf8 record_bytes)
    pure (some r))

  read_prev : Reader (Option FluxnodeRecord)
  unfolding ◌>>=◌ read_u8 prev_of_flag
  read_prev = do flag ← read_u8; prev_of_flag flag

  read_fluxnode_undo : Reader FluxnodeUndo
  unfolding ◌>>=◌ pure OutPoint.consensus_decode read_prev
  read_fluxnode_undo = do
    collateral ← OutPoint.consensus_decode
    prev ← read_prev
    pure (record { collateral = collateral; prev = prev })

  -- The first version has no `fluxnode_extra`.
  read_extra : ℕ → Reader (List FluxnodeUndo)
  unfolding pure read_counted read_fluxnode_undo
  read_extra version = if version == 1 then pure [] else read_counted read_fluxnode_undo

  unfoldable pub read_block_undo : Reader BlockUndo
  unfolding ◌>>=◌ ◌>>◌ pure fail_if read_u8 read_var_bytes read_spent read_fluxnode_undo
      read_counted read_extra
  read_block_undo = do
    version ← read_u8
    fail_if (not (version == 1) && not (version == block_undo_version))
        (invalid_data "unsupported block undo version")
    prev_sprout_tree ← read_var_bytes
    prev_sapling_tree ← read_var_bytes
    spent ← read_counted read_spent
    fluxnode ← read_counted read_fluxnode_undo
    fluxnode_extra ← read_extra version
    pure (record {
      prev_sprout_tree = prev_sprout_tree;
      prev_sapling_tree = prev_sapling_tree;
      spent = spent;
      fluxnode = fluxnode;
      fluxnode_extra = fluxnode_extra;
    })

  -- The test that nothing is left is that of `decode`.
  unfoldable pub decode_block_undo : List ℕ → Result DecodeError BlockUndo
  unfolding decode read_block_undo
  decode_block_undo bytes = decode read_block_undo bytes
