-- ===== src/Tests/Records.antt =====
-- The records of utxo.rs, storage.rs and undo.rs.
use fluxd_rust.Prelude.{
  ℕ, ◌≤◌, ◌≡◌, ◌⊎◌, refl, List, [], ◌∷◌, ◌++◌, length, Bool, true, none, some, replicate, arith,
}
use fluxd_rust.Prelude.Int.{pos, negsuc}
use fluxd_rust.Prelude.Result.{ok}
use fluxd_rust.Primitives.Bytes.{to_le_bytes}
use fluxd_rust.Primitives.Encoding.{
  max_compact_size, into_inner, write_u8, write_u32_le, write_var_bytes, write_bytes, write_varint,
  write_i64_le, new_encoder, write_var_str, write_hash_le,
}
use fluxd_rust.Primitives.Encoding.Writes.{var_bytes}
use fluxd_rust.Primitives.OutPoint.{OutPoint, IsOutPoint}
use fluxd_rust.Chainstate.Utxo
use fluxd_rust.Chainstate.Utxo.{UtxoEntry, IsUtxoEntry, decode_utxo_entry, decode_utxo_entry-encode}
use fluxd_rust.Fluxnode.Record
use fluxd_rust.Fluxnode.Record.{FluxnodeRecord, decode_fluxnode_record, legacy_confirmed}
use fluxd_rust.Fluxnode.Record.Formats
use fluxd_rust.Fluxnode.Record.Formats.{
  IsFluxnodeRecord, confirmed_bytes, without_tail, decode_fluxnode_record-encode,
  decode_older_formats,
}
use fluxd_rust.Chainstate.Undo
use fluxd_rust.Chainstate.Undo.{SpentOutput, FluxnodeUndo, BlockUndo, decode_block_undo}
use fluxd_rust.Chainstate.Undo.Roundtrip.{IsBlockUndo, decode_block_undo-encode}

abbrev pub hash : List ℕ
hash = replicate 32 7

abbrev pub outpoint : OutPoint
outpoint = record { hash = hash; index = 1 }

pub outpoint-IsOutPoint : IsOutPoint outpoint
outpoint-IsOutPoint = record { hash_size = refl; index_range = omega arith }

abbrev pub entry : UtxoEntry
entry = record { value = negsuc 4; script_pubkey = 0x6a ∷ []; height = 12; is_coinbase = true }

pub entry-IsUtxoEntry : IsUtxoEntry entry
entry-IsUtxoEntry = record {
  value_range = omega arith;
  script_size = omega arith;
  height_range = omega arith;
}

-- The test of a string takes every byte string here.
abbrev any_string : List ℕ → Bool
any_string bytes = true

abbrev node : FluxnodeRecord
node = record {
  collateral = outpoint;
  tier = 2;
  start_height = 100;
  confirmed_height = 110;
  last_confirmed_height = 120;
  last_paid_height = 0;
  collateral_value = pos 5;
  operator_pubkey = hash;
  collateral_pubkey = some hash;
  p2sh_script = none;
  delegates = some hash;
  ip = 49 ∷ 50 ∷ [];
}

node-IsFluxnodeRecord : IsFluxnodeRecord any_string node
node-IsFluxnodeRecord = record {
  collateral_sizes = outpoint-IsOutPoint;
  start_height_range = omega arith;
  confirmed_height_range = omega arith;
  last_confirmed_height_range = omega arith;
  last_paid_height_range = omega arith;
  collateral_value_range = omega arith;
  operator_pubkey_size = refl;
  collateral_pubkey_size = refl;
  p2sh_script_size = tt;
  delegates_size = refl;
  ip_size = omega arith;
  ip_utf8 = refl;
}

decode_fluxnode_record-encode_example :
    decode_fluxnode_record any_string (Record.encode node) ≡ ok node
decode_fluxnode_record-encode_example =
    decode_fluxnode_record-encode any_string node node-IsFluxnodeRecord

decode_older_formats_example :
    (confirmed : ℕ) × (((node.last_confirmed_height ≡ node.start_height) × (confirmed ≡ 0))
      ⊎ ((¬ (node.last_confirmed_height ≡ node.start_height))
          × (confirmed ≡ node.last_confirmed_height)))
    × (decode_fluxnode_record any_string (Formats.head_bytes node [])
        ≡ ok (record node {
          confirmed_height = confirmed;
          collateral_value = pos 0;
          ip = [];
          delegates = none;
        }))
    × (decode_fluxnode_record any_string (Formats.head_bytes node (confirmed_bytes node))
        ≡ ok (record node { ip = []; delegates = none }))
    × (decode_fluxnode_record any_string
          (Formats.head_bytes node (confirmed_bytes node ++ var_bytes node.ip))
        ≡ ok (record node { delegates = none }))
decode_older_formats_example = decode_older_formats any_string node node-IsFluxnodeRecord

abbrev undo : BlockUndo
undo = record {
  prev_sprout_tree = 1 ∷ [];
  prev_sapling_tree = [];
  spent = record { outpoint = outpoint; entry = entry } ∷ [];
  fluxnode =
      record { collateral = outpoint; prev = some node }
      ∷ record { collateral = outpoint; prev = none }
      ∷ [];
  fluxnode_extra = record { collateral = outpoint; prev = none } ∷ [];
}

-- The encodings are short.
entry_size : length (Utxo.encode entry) ≤ max_compact_size
unfolding Utxo.encode to_le_bytes into_inner write_u8 write_u32_le write_var_bytes write_bytes
    write_varint write_i64_le new_encoder
entry_size = omega arith

node_size : length (Record.encode node) ≤ max_compact_size
unfolding Record.encode to_le_bytes into_inner write_bytes write_u8 write_var_str write_varint
    write_i64_le write_u32_le write_hash_le new_encoder
node_size = omega arith

undo-IsBlockUndo : IsBlockUndo any_string undo
undo-IsBlockUndo = record {
  sprout_size = omega arith;
  sapling_size = omega arith;
  spent_count = omega arith;
  fluxnode_count = omega arith;
  extra_count = omega arith;
  spent_each = (
    record {
      outpoint_sizes = outpoint-IsOutPoint;
      entry_ranges = entry-IsUtxoEntry;
      entry_size = entry_size;
    },
    tt,
  );
  fluxnode_each = (
    record {
      collateral_sizes = outpoint-IsOutPoint;
      prev_ranges = (node-IsFluxnodeRecord, node_size);
    },
    (record { collateral_sizes = outpoint-IsOutPoint; prev_ranges = tt }, tt),
  );
  extra_each = (record { collateral_sizes = outpoint-IsOutPoint; prev_ranges = tt }, tt);
}

decode_block_undo-encode_example : decode_block_undo any_string (Undo.encode undo) ≡ ok undo
decode_block_undo-encode_example = decode_block_undo-encode any_string undo undo-IsBlockUndo
