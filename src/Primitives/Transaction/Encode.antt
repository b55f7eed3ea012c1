-- ===== src/Primitives/Transaction/Encode.antt =====
-- crates/primitives/src/transaction.rs: `encode_with_mode` and its two callers.
pub mod Encodable
pub mod Steps
pub mod Success
use Prim.Native.String.{String}
use fluxd_rust.Prelude.{
  is_nil, ℕ, List, [], ◌∷◌, length, Bool, true, false, not, ◌&&◌, ◌||◌, Option, none, some,
  if◌then◌else◌,
}
use fluxd_rust.Prelude.Int.{pos, eq_ℤ, leb_ℤ}
use fluxd_rust.Prelude.Result.{Result, ok, err, ◌>>=◌, ◌>>◌, fail_if}
use fluxd_rust.Primitives.Encoding.{
  Encoder, new_encoder, into_inner, ◌▷◌, write_bytes, write_u32_le, write_i64_le, write_varint,
}
use fluxd_rust.Primitives.Encoding.Vectors.{write_vec}
use fluxd_rust.Primitives.FluxnodeTransaction.{FluxnodeTx}
use fluxd_rust.Primitives.FluxnodeTransaction.Encode.{encode_fluxnode_v5, encode_fluxnode_v6}
use fluxd_rust.Primitives.Transaction.{Transaction, header, is_overwinter_v3, is_sapling_v4}
use fluxd_rust.Primitives.Transaction.Errors.{TransactionEncodeError, invalid_format}
use fluxd_rust.Primitives.Transaction.Parts.{write_tx_in, write_tx_out, write_spend, write_output}
use fluxd_rust.Primitives.Transaction.JoinSplits.{JoinSplit, write_join_split}
use fluxd_rust.Primitives.Transaction.Optional.{write_if}

-- `self.fluxnode.as_ref().ok_or(missing)?`, and the encoder of that version.
unfoldable pub encode_present :
    (FluxnodeTx → Bool → Encoder → Result TransactionEncodeError Encoder)
    → String
    → Bool
    → Option FluxnodeTx
    → Encoder
    → Result TransactionEncodeError Encoder
encode_present encode_fluxnode missing include_signatures (some fluxnode) e =
    encode_fluxnode fluxnode include_signatures e
encode_present encode_fluxnode missing include_signatures none e = err (invalid_format missing)

unfoldable pub encode_payload :
    (FluxnodeTx → Bool → Encoder → Result TransactionEncodeError Encoder)
    → String
    → Transaction
    → Bool
    → Encoder
    → Result TransactionEncodeError Encoder
unfolding encode_present
encode_payload encode_fluxnode missing tx include_signatures e =
    if tx.f_overwintered
    then err (invalid_format "fluxnode tx must not be overwintered")
    else encode_present encode_fluxnode missing include_signatures tx.fluxnode e

unfoldable pub write_sapling : Transaction → Encoder → Encoder
unfolding write_vec write_spend write_output
write_sapling tx e =
    e
    ▷ write_i64_le tx.value_balance
    ▷ write_vec write_spend tx.shielded_spends
    ▷ write_vec write_output tx.shielded_outputs

-- `for join_split in &self.join_splits { .. }`
unfoldable pub write_each_split :
    Bool → List JoinSplit → Encoder → Result TransactionEncodeError Encoder
unfolding write_join_split
write_each_split use_groth [] e = ok e
write_each_split use_groth (j ∷ js) e =
    write_join_split use_groth j e >>= write_each_split use_groth js

unfoldable pub write_split_keys : Transaction → Encoder → Encoder
write_split_keys tx e = e ▷ write_bytes tx.join_split_pub_key ▷ write_bytes tx.join_split_sig

unfoldable pub write_join_splits : Transaction → Encoder → Result TransactionEncodeError Encoder
unfolding write_each_split write_split_keys write_if
write_join_splits tx e =
    write_each_split (tx.f_overwintered && leb_ℤ (pos 4) tx.version) tx.join_splits
      (e ▷ write_varint (length tx.join_splits))
    >>= λ e'. ok (e' ▷ write_if (not (is_nil tx.join_splits)) (write_split_keys tx))

-- The formats that are not those of fluxnodes; `v3` and `v4` are the two of overwinter.
unfoldable pub write_inputs : Transaction → Bool → Bool → Encoder → Encoder
unfolding write_vec write_tx_in write_tx_out write_if write_sapling
write_inputs tx v3 v4 e =
    e
    ▷ write_vec write_tx_in tx.vin
    ▷ write_vec write_tx_out tx.vout
    ▷ write_u32_le tx.lock_time
    ▷ write_if (v3 || v4) (write_u32_le tx.expiry_height)
    ▷ write_if v4 (write_sapling tx)

unfoldable pub has_binding_sig : Transaction → Bool → Bool
has_binding_sig tx v4 = v4 && not (is_nil tx.shielded_spends && is_nil tx.shielded_outputs)

unfoldable pub encode_formats :
    Transaction → Bool → Bool → Encoder → Result TransactionEncodeError Encoder
unfolding write_inputs write_join_splits has_binding_sig write_if
encode_formats tx v3 v4 e = do
  fail_if (tx.f_overwintered && not (v3 || v4))
      (invalid_format "unknown overwinter transaction format")
  e' ←
      (if leb_ℤ (pos 2) tx.version
        then write_join_splits tx (write_inputs tx v3 v4 e)
        else ok (write_inputs tx v3 v4 e))
  ok (e' ▷ write_if (has_binding_sig tx v4) (write_bytes tx.binding_sig))

unfoldable pub encode_body : Transaction → Bool → Encoder → Result TransactionEncodeError Encoder
unfolding encode_payload encode_fluxnode_v5 encode_fluxnode_v6 encode_formats
encode_body tx include_signatures e =
    if eq_ℤ tx.version (pos 5)
    then encode_payload encode_fluxnode_v5 "missing fluxnode payload for v5" tx include_signatures e
    else if eq_ℤ tx.version (pos 6)
    then encode_payload encode_fluxnode_v6 "missing fluxnode payload for v6" tx include_signatures e
    else encode_formats tx (is_overwinter_v3 tx.f_overwintered tx.version_group_id tx.version)
        (is_sapling_v4 tx.f_overwintered tx.version_group_id tx.version) e

unfoldable pub encode_into : Transaction → Bool → Encoder → Result TransactionEncodeError Encoder
unfolding header write_if encode_body
encode_into tx include_signatures e =
    encode_body tx include_signatures
      (e ▷ write_u32_le (header tx) ▷ write_if tx.f_overwintered (write_u32_le tx.version_group_id))

unfoldable pub encode_with_mode : Transaction → Bool → Result TransactionEncodeError (List ℕ)
unfolding encode_into
encode_with_mode tx include_signatures =
    encode_into tx include_signatures new_encoder >>= λ e. ok (into_inner e)

unfoldable pub consensus_encode : Transaction → Result TransactionEncodeError (List ℕ)
unfolding encode_with_mode
consensus_encode tx = encode_with_mode tx true

unfoldable pub consensus_encode_for_hash : Transaction → Result TransactionEncodeError (List ℕ)
unfolding encode_with_mode
consensus_encode_for_hash tx = encode_with_mode tx false

-- `sha256d` is a third-party function.
unfoldable pub txid : (List ℕ → List ℕ) → Transaction → Result TransactionEncodeError (List ℕ)
unfolding consensus_encode_for_hash
txid sha256d tx = consensus_encode_for_hash tx >>= λ bytes. ok (sha256d bytes)
