-- ===== src/Tests/Transactions.antt =====
-- Transactions and blocks of transaction.rs and block.rs.
use fluxd_rust.Prelude.{
  ℕ, ◌≡◌, ◌↔◌, refl, List, [], ◌∷◌, ◌++◌, replicate, Bool, true, false, none, arith,
}
use fluxd_rust.Prelude.Int.{pos}
use fluxd_rust.Prelude.Result.{ok}
use fluxd_rust.Primitives.Bytes.{to_le_bytes}
use fluxd_rust.Primitives.Encoding.{
  into_inner, write_bytes, write_varint, write_u8, new_encoder, write_var_bytes, write_hash_le,
  write_u32_le, write_i32_le, write_i64_le,
}
use fluxd_rust.Primitives.OutPoint.{OutPoint}
use fluxd_rust.Primitives.FluxnodeTransaction.{FluxnodeTxV5, v5, start_v5}
use fluxd_rust.Primitives.Transaction.{Transaction}
use fluxd_rust.Primitives.Transaction.Encode.{encode_with_mode, txid}
use fluxd_rust.Primitives.Transaction.Encode.Encodable.{IsEncodable, with_v5}
use fluxd_rust.Primitives.Transaction.Encode.Success.{encode_with_mode-IsEncodable}
use fluxd_rust.Primitives.Transaction.Decode.{decode_with_mode, payload_transaction}
use fluxd_rust.Primitives.Transaction.Decode.Kept.{IsTransaction, kept}
use fluxd_rust.Primitives.Transaction.Decode.Roundtrip.{decode_with_mode-encode_with_mode}
use fluxd_rust.Primitives.Transaction.Identity.{with_signatures, txid-with_signatures}
use fluxd_rust.Primitives.Block.{BlockHeader, Block, encode_block, decode_block}
use fluxd_rust.Primitives.Block.Headers.{IsBlockHeader}
use fluxd_rust.Primitives.Block.Roundtrip.{kept_block, decode_block-encode_block}

abbrev any_utf8 : List ℕ → Bool
any_utf8 bytes = true

abbrev no_outpoint : OutPoint
no_outpoint = record { hash = replicate 32 0; index = 0xffff_ffff }

-- One input, one output and a version without join splits.
abbrev sample : Transaction
sample = record {
  f_overwintered = false;
  version = pos 1;
  version_group_id = 0;
  vin = record { prevout = no_outpoint; script_sig = 0x51 ∷ []; sequence = 5 } ∷ [];
  vout = record { value = pos 10; script_pubkey = 0x6a ∷ [] } ∷ [];
  lock_time = 0;
  expiry_height = 0;
  value_balance = pos 0;
  shielded_spends = [];
  shielded_outputs = [];
  join_splits = [];
  join_split_pub_key = replicate 32 0;
  join_split_sig = replicate 64 0;
  binding_sig = replicate 64 0;
  fluxnode = none;
}

abbrev sample_bytes : List ℕ
sample_bytes =
    1
    ∷ 0
    ∷ 0
    ∷ 0
    ∷ 1
    ∷ (replicate 32 0
        ++ (0xff ∷ 0xff ∷ 0xff ∷ 0xff ∷ 1 ∷ 0x51 ∷ 5 ∷ 0 ∷ 0 ∷ 0 ∷ 1 ∷ 10 ∷ 0 ∷ 0 ∷ 0 ∷ 0 ∷ 0 ∷ 0
            ∷ 0 ∷ 1 ∷ 0x6a ∷ 0 ∷ 0 ∷ 0 ∷ 0 ∷ []))

encode_sample : encode_with_mode sample true ≡ ok sample_bytes
unfolding encode_with_mode to_le_bytes into_inner write_bytes write_varint write_u8 new_encoder
    write_var_bytes write_hash_le write_u32_le write_i64_le
encode_sample = refl

keep_sample : kept sample true ≡ sample
unfolding kept
keep_sample = refl

sample-IsTransaction : IsTransaction any_utf8 sample
sample-IsTransaction = record {
  version_range = omega arith;
  version_group_id_range = omega arith;
  vin_sizes = (
    omega arith,
    (
      record {
        prevout_sizes = record { hash_size = refl; index_range = omega arith };
        script_size = omega arith;
        sequence_range = omega arith;
      },
      tt,
    ),
  );
  vout_sizes = (omega arith, (record { value_range = omega arith; script_size = omega arith }, tt));
  lock_time_range = omega arith;
  expiry_height_range = omega arith;
  value_balance_range = omega arith;
  shielded_spends_sizes = (omega arith, tt);
  shielded_outputs_sizes = (omega arith, tt);
  join_splits_sizes = (omega arith, tt);
  join_split_pub_key_size = refl;
  join_split_sig_size = refl;
  binding_sig_size = refl;
  fluxnode_sizes = tt;
}

decode_with_mode-encode_with_mode_example :
    decode_with_mode any_utf8 true sample_bytes ≡ ok (kept sample true)
decode_with_mode-encode_with_mode_example =
    decode_with_mode-encode_with_mode any_utf8 true sample sample-IsTransaction encode_sample

abbrev start_payload : FluxnodeTxV5
start_payload = start_v5 (record {
  collateral = no_outpoint;
  collateral_pubkey = 2 ∷ [];
  pubkey = 3 ∷ [];
  sig_time = 9;
  sig = 7 ∷ [];
})

abbrev start : Transaction
start = payload_transaction false (pos 5) 0 (v5 start_payload)

encode_with_mode-IsEncodable_example :
    ((bytes : List ℕ) × (encode_with_mode start true ≡ ok bytes)) ↔ IsEncodable start
encode_with_mode-IsEncodable_example = encode_with_mode-IsEncodable start true

start-IsEncodable : IsEncodable start
start-IsEncodable = with_v5 start_payload refl refl refl

abbrev plain_hash : List ℕ → List ℕ
plain_hash bytes = bytes

txid-with_signatures_example :
    txid plain_hash (with_signatures (8 ∷ 8 ∷ []) [] start) ≡ txid plain_hash start
txid-with_signatures_example = txid-with_signatures (8 ∷ 8 ∷ []) [] plain_hash start

abbrev sample_header : BlockHeader
sample_header = record {
  version = pos 4;
  prev_block = replicate 32 1;
  merkle_root = replicate 32 2;
  final_sapling_root = replicate 32 3;
  time = 4;
  bits = 5;
  nonce = replicate 32 6;
  solution = 7 ∷ [];
  nodes_collateral = no_outpoint;
  block_sig = [];
}

abbrev sample_block : Block
sample_block = record { block_header = sample_header; transactions = sample ∷ [] }

abbrev block_bytes : List ℕ
block_bytes =
    4
    ∷ 0
    ∷ 0
    ∷ 0
    ∷ (replicate 32 1
        ++ (replicate 32 2
            ++ (replicate 32 3
                ++ (4
                    ∷ 0
                    ∷ 0
                    ∷ 0
                    ∷ 5
                    ∷ 0
                    ∷ 0
                    ∷ 0
                    ∷ (replicate 32 6 ++ (1 ∷ 7 ∷ 1 ∷ sample_bytes))))))

encode_sample_block : encode_block sample_block ≡ ok block_bytes
unfolding encode_block to_le_bytes into_inner write_bytes write_varint write_u8 new_encoder
    write_var_bytes write_hash_le write_u32_le write_i32_le write_i64_le
encode_sample_block = refl

sample_header-IsBlockHeader : IsBlockHeader sample_header
sample_header-IsBlockHeader = record {
  version_range = omega arith;
  prev_block_size = refl;
  merkle_root_size = refl;
  final_sapling_root_size = refl;
  time_range = omega arith;
  bits_range = omega arith;
  nonce_size = refl;
  solution_size = omega arith;
  nodes_collateral_sizes = record { hash_size = refl; index_range = omega arith };
  block_sig_size = omega arith;
}

decode_block-encode_block_example : decode_block any_utf8 block_bytes ≡ ok (kept_block sample_block)
decode_block-encode_block_example =
    decode_block-encode_block any_utf8 sample_block
      (record {
        header_sizes = sample_header-IsBlockHeader;
        transactions_count = omega arith;
        transactions_sizes = (sample-IsTransaction, tt);
      })
      encode_sample_block
