-- ===== src/Primitives/Transaction/Decode.antt =====
-- crates/primitives/src/transaction.rs: `decode_from` and its callers.
-- `is_utf8` is the test of `String::from_utf8` that `read_var_str` makes.
pub mod Kept
pub mod Formats
pub mod Reading
pub mod Body
pub mod Roundtrip
use Prim.Native.String.{String}
use fluxd_rust.Prelude.{
  is_nil, ℕ, ◌/◌, ◌%◌, ◌^◌, List, [], replicate, Bool, true, false, not, ◌&&◌, ◌||◌, Option, none,
  some, ◌==◌, if◌then◌else◌,
}
use fluxd_rust.Prelude.Int.{ℤ, pos, eq_ℤ, leb_ℤ}
use fluxd_rust.Prelude.Result.{Result, ok, err}
use fluxd_rust.Primitives.Encoding.{
  ReaderOf, Reader, ◌>>=◌, ◌>>◌, pure, fail_if, new_decoder, is_empty, read_u32_le, read_i64_le,
  read_fixed, trailing_bytes,
}
use fluxd_rust.Primitives.Encoding.Vectors.{read_vec}
use fluxd_rust.Primitives.FluxnodeTransaction.{FluxnodeTx, v5, v6}
use fluxd_rust.Primitives.FluxnodeTransaction.Decode.{decode_fluxnode_v5, decode_fluxnode_v6}
use fluxd_rust.Primitives.Transaction.{Transaction, is_overwinter_v3, is_sapling_v4}
use fluxd_rust.Primitives.Transaction.Errors.{
  TransactionDecodeError, decode_error, invalid_transaction_format, lift,
}
use fluxd_rust.Primitives.Transaction.Parts.{
  SpendDescription, OutputDescription, read_tx_in, read_tx_out, read_spend, read_output,
}
use fluxd_rust.Primitives.Transaction.JoinSplits.{JoinSplit, read_join_split}
use fluxd_rust.Primitives.Transaction.Optional.{read_if}

-- The record that the two fluxnode branches build.
abbrev pub payload_transaction : Bool → ℤ → ℕ → FluxnodeTx → Transaction
payload_transaction f_overwintered version version_group_id fluxnode = record {
  f_overwintered = f_overwintered;
  version = version;
  version_group_id = version_group_id;
  vin = [];
  vout = [];
  lock_time = 0;
  expiry_height = 0;
  value_balance = pos 0;
  shielded_spends = [];
  shielded_outputs = [];
  join_splits = [];
  join_split_pub_key = replicate 32 0;
  join_split_sig = replicate 64 0;
  binding_sig = replicate 64 0;
  fluxnode = some fluxnode;
}

unfoldable pub read_sapling : Reader (ℤ × List SpendDescription × List OutputDescription)
unfolding ◌>>=◌ pure read_i64_le read_vec read_spend read_output
read_sapling = do
  value_balance ← read_i64_le
  shielded_spends ← read_vec read_spend
  shielded_outputs ← read_vec read_output
  pure (value_balance, shielded_spends, shielded_outputs)

read_split_keys : Reader (List ℕ × List ℕ)
unfolding ◌>>=◌ pure read_fixed
read_split_keys = do
  join_split_pub_key ← read_fixed 32
  join_split_sig ← read_fixed 64
  pure (join_split_pub_key, join_split_sig)

abbrev pub no_keys : List ℕ × List ℕ
no_keys = (replicate 32 0, replicate 64 0)

unfoldable pub read_join_splits : Bool → Reader (List JoinSplit × List ℕ × List ℕ)
unfolding ◌>>=◌ pure read_vec read_join_split read_if read_split_keys
read_join_splits use_groth = do
  join_splits ← read_vec (read_join_split use_groth)
  keys ← read_if (not (is_nil join_splits)) no_keys read_split_keys
  pure (join_splits, keys.0, keys.1)

-- The formats that are not those of fluxnodes; `v3` and `v4` are the two of overwinter.
unfoldable pub decode_formats : Bool → ℤ → ℕ → Bool → Bool → Reader Transaction
unfolding ◌>>=◌ pure read_vec read_tx_in read_tx_out read_u32_le read_if read_sapling
    read_join_splits read_fixed
decode_formats f_overwintered version version_group_id v3 v4 = do
  vin ← read_vec read_tx_in
  vout ← read_vec read_tx_out
  lock_time ← read_u32_le
  expiry_height ← read_if (v3 || v4) 0 read_u32_le
  sapling ← read_if v4 (pos 0, [], []) read_sapling
  splits ←
      read_if (leb_ℤ (pos 2) version) ([], no_keys.0, no_keys.1)
        (read_join_splits (f_overwintered && leb_ℤ (pos 4) version))
  binding_sig ←
      read_if (v4 && not (is_nil sapling.1 && is_nil sapling.2)) (replicate 64 0) (read_fixed 64)
  pure (record {
    f_overwintered = f_overwintered;
    version = version;
    version_group_id = version_group_id;
    vin = vin;
    vout = vout;
    lock_time = lock_time;
    expiry_height = expiry_height;
    value_balance = sapling.0;
    shielded_spends = sapling.1;
    shielded_outputs = sapling.2;
    join_splits = splits.0;
    join_split_pub_key = splits.1;
    join_split_sig = splits.2;
    binding_sig = binding_sig;
    fluxnode = none;
  })

module _ (is_utf8 : List ℕ → Bool) (include_signatures : Bool) where
  not_overwintered : Bool → ReaderOf TransactionDecodeError (Unit {0})
  unfolding fail_if
  not_overwintered f_overwintered =
      fail_if f_overwintered (invalid_transaction_format "fluxnode tx must not be overwintered")

  by_version : Bool → ℤ → ℕ → Bool → Bool → ReaderOf TransactionDecodeError Transaction
  unfolding ◌>>=◌ ◌>>◌ pure lift not_overwintered decode_fluxnode_v5 decode_fluxnode_v6
      decode_formats
  by_version f_overwintered version version_group_id v3 v4 =
      if eq_ℤ version (pos 5)
      then (not_overwintered f_overwintered
          >> (decode_fluxnode_v5 is_utf8 include_signatures >>= λ fluxnode.
              pure (payload_transaction f_overwintered version version_group_id (v5 fluxnode))))
      else if eq_ℤ version (pos 6)
      then (not_overwintered f_overwintered
          >> (decode_fluxnode_v6 is_utf8 include_signatures >>= λ fluxnode.
              pure (payload_transaction f_overwintered version version_group_id (v6 fluxnode))))
      else lift (decode_formats f_overwintered version version_group_id v3 v4)

  unfoldable pub decode_body :
      Bool → ℤ → ℕ → Bool → Bool → ReaderOf TransactionDecodeError Transaction
  unfolding ◌>>◌ fail_if by_version
  decode_body f_overwintered version version_group_id v3 v4 = do
    fail_if (f_overwintered && not (v3 || v4))
        (invalid_transaction_format "unknown overwinter transaction format")
    by_version f_overwintered version version_group_id v3 v4

  decode_group : Bool → ℤ → ℕ → ReaderOf TransactionDecodeError Transaction
  unfolding decode_body
  decode_group f_overwintered version version_group_id =
      decode_body f_overwintered version version_group_id
        (is_overwinter_v3 f_overwintered version_group_id version)
        (is_sapling_v4 f_overwintered version_group_id version)

  -- What stands behind the header.
  decode_rest : Bool → ℤ → ReaderOf TransactionDecodeError Transaction
  unfolding ◌>>=◌ lift read_u32_le read_if decode_group
  decode_rest f_overwintered version = do
    version_group_id ← read_if f_overwintered 0 (lift read_u32_le)
    decode_group f_overwintered version version_group_id

  -- `header >> 31` and `header & 0x7fff_ffff`
  unfoldable pub decode_from : ReaderOf TransactionDecodeError Transaction
  unfolding ◌>>=◌ lift read_u32_le decode_rest
  decode_from = do
    header ← lift read_u32_le
    decode_rest (not (header / 2 ^ 31 == 0)) (pos (header % 2 ^ 31))

  unfoldable pub decode_with_mode : List ℕ → Result TransactionDecodeError Transaction
  unfolding decode_from new_decoder is_empty
  decode_with_mode bytes = elim (decode_from (new_decoder bytes)) [
    | ok (tx, d) ↦ if is_empty d then ok tx else err (decode_error trailing_bytes)
    | err e ↦ err e
  ]

unfoldable pub consensus_decode :
    (List ℕ → Bool) → List ℕ → Result TransactionDecodeError Transaction
unfolding decode_with_mode
consensus_decode is_utf8 bytes = decode_with_mode is_utf8 true bytes

unfoldable pub consensus_decode_for_hash :
    (List ℕ → Bool) → List ℕ → Result TransactionDecodeError Transaction
unfolding decode_with_mode
consensus_decode_for_hash is_utf8 bytes = decode_with_mode is_utf8 false bytes
