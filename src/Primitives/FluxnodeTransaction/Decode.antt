-- ===== src/Primitives/FluxnodeTransaction/Decode.antt =====
-- crates/primitives/src/transaction.rs: reading the payload of a fluxnode transaction.
-- `is_utf8` is the test of `String::from_utf8` that `read_var_str` makes.
pub mod Roundtrip
pub mod StartV6
use fluxd_rust.Prelude.{ℕ, Bool, true, false, List, [], Option, none, some, if◌then◌else◌, ◌==◌}
use fluxd_rust.Prelude.Int.{ℤ}
use fluxd_rust.Primitives.Encoding.{
  Reader, ReaderOf, ◌>>=◌, pure, fail, read_u8, read_u32_le, read_i32_le, read_bool, read_var_bytes,
  read_var_str,
}
use fluxd_rust.Primitives.OutPoint
use fluxd_rust.Primitives.FluxnodeTransaction.{
  FluxnodeDelegates, FluxnodeConfirmTx, FluxnodeStartV5, FluxnodeStartVariantV6, normal, p2sh,
  FluxnodeStartV6, FluxnodeTxV5, start_v5, confirm_v5, FluxnodeTxV6, start_v6, confirm_v6,
  read_delegates,
}
use fluxd_rust.Primitives.FluxnodeTransaction.Version.{
  is_normal, is_p2sh, has_flux_tx_delegates_feature,
}
use fluxd_rust.Primitives.FluxnodeTransaction.Encode.{
  fluxnode_start_tx_type, fluxnode_confirm_tx_type,
}
use fluxd_rust.Primitives.Transaction.Errors.{
  TransactionDecodeError, invalid_transaction_format, lift,
}

unfoldable pub read_sig : Bool → Reader (List ℕ)
unfolding pure read_var_bytes
read_sig include_signatures = if include_signatures then read_var_bytes else pure []

read_start_v5 : Bool → Reader FluxnodeStartV5
unfolding ◌>>=◌ pure OutPoint.consensus_decode read_var_bytes read_u32_le read_sig
read_start_v5 include_signatures = do
  collateral ← OutPoint.consensus_decode
  collateral_pubkey ← read_var_bytes
  pubkey ← read_var_bytes
  sig_time ← read_u32_le
  sig ← read_sig include_signatures
  pure (record {
    collateral = collateral;
    collateral_pubkey = collateral_pubkey;
    pubkey = pubkey;
    sig_time = sig_time;
    sig = sig;
  })

read_normal : Bool → Reader FluxnodeStartVariantV6
unfolding ◌>>=◌ pure OutPoint.consensus_decode read_var_bytes read_u32_le read_sig
read_normal include_signatures = do
  collateral ← OutPoint.consensus_decode
  collateral_pubkey ← read_var_bytes
  pubkey ← read_var_bytes
  sig_time ← read_u32_le
  sig ← read_sig include_signatures
  pure (normal collateral collateral_pubkey pubkey sig_time sig)

read_p2sh : Bool → Reader FluxnodeStartVariantV6
unfolding ◌>>=◌ pure OutPoint.consensus_decode read_var_bytes read_u32_le read_sig
read_p2sh include_signatures = do
  collateral ← OutPoint.consensus_decode
  pubkey ← read_var_bytes
  redeem_script ← read_var_bytes
  sig_time ← read_u32_le
  sig ← read_sig include_signatures
  pure (p2sh collateral pubkey redeem_script sig_time sig)

read_variant : Bool → Bool → Bool → ReaderOf TransactionDecodeError FluxnodeStartVariantV6
unfolding fail lift read_normal read_p2sh
read_variant is_normal is_p2sh include_signatures =
    if is_normal
    then lift (read_normal include_signatures)
    else if is_p2sh
    then lift (read_p2sh include_signatures)
    else fail (invalid_transaction_format "fluxnode v6 start has invalid version bits")

read_delegates_if : Bool → Reader (Option FluxnodeDelegates)
unfolding ◌>>=◌ pure read_delegates
read_delegates_if using_delegates =
    if using_delegates then (read_delegates >>= λ d. pure (some d)) else pure none

read_flagged_delegates : Bool → Reader (Bool × Option FluxnodeDelegates)
unfolding ◌>>=◌ pure read_bool read_delegates_if
read_flagged_delegates has_feature =
    if has_feature
    then (read_bool >>= λ using_delegates.
        read_delegates_if using_delegates >>= λ delegates. pure (using_delegates, delegates))
    else pure (false, none)

read_start_v6 : Bool → ReaderOf TransactionDecodeError FluxnodeStartV6
unfolding ◌>>=◌ pure lift read_i32_le read_variant read_flagged_delegates is_normal is_p2sh
    has_flux_tx_delegates_feature
read_start_v6 include_signatures = do
  flux_tx_version ← lift read_i32_le
  variant ← read_variant (is_normal flux_tx_version) (is_p2sh flux_tx_version) include_signatures
  delegates ← lift (read_flagged_delegates (has_flux_tx_delegates_feature flux_tx_version))
  pure (record {
    flux_tx_version = flux_tx_version;
    variant = variant;
    using_delegates = delegates.0;
    delegates = delegates.1;
  })

module _ (is_utf8 : List ℕ → Bool) where
  -- The same in both versions.
  unfoldable pub read_confirm : Bool → Reader FluxnodeConfirmTx
  unfolding ◌>>=◌ pure OutPoint.consensus_decode read_u32_le read_u8 read_var_str read_sig
  read_confirm include_signatures = do
    collateral ← OutPoint.consensus_decode
    sig_time ← read_u32_le
    benchmark_tier ← read_u8
    benchmark_sig_time ← read_u32_le
    update_type ← read_u8
    ip ← read_var_str is_utf8
    sig ← read_sig include_signatures
    benchmark_sig ← read_sig include_signatures
    pure (record {
      collateral = collateral;
      sig_time = sig_time;
      benchmark_tier = benchmark_tier;
      benchmark_sig_time = benchmark_sig_time;
      update_type = update_type;
      ip = ip;
      sig = sig;
      benchmark_sig = benchmark_sig;
    })

  read_body_v5 : Bool → ℕ → ReaderOf TransactionDecodeError FluxnodeTxV5
  unfolding ◌>>=◌ pure fail lift read_start_v5 read_confirm
  read_body_v5 include_signatures tx_type =
      if tx_type == fluxnode_start_tx_type
      then (lift (read_start_v5 include_signatures) >>= λ start. pure (start_v5 start))
      else if tx_type == fluxnode_confirm_tx_type
      then (lift (read_confirm include_signatures) >>= λ confirm. pure (confirm_v5 confirm))
      else fail (invalid_transaction_format "unknown fluxnode v5 transaction type")

  unfoldable pub decode_fluxnode_v5 : Bool → ReaderOf TransactionDecodeError FluxnodeTxV5
  unfolding ◌>>=◌ lift read_u8 read_body_v5
  decode_fluxnode_v5 include_signatures = do
    tx_type ← lift read_u8
    read_body_v5 include_signatures tx_type

  read_body_v6 : Bool → ℕ → ReaderOf TransactionDecodeError FluxnodeTxV6
  unfolding ◌>>=◌ pure fail lift read_start_v6 read_confirm
  read_body_v6 include_signatures tx_type =
      if tx_type == fluxnode_start_tx_type
      then (read_start_v6 include_signatures >>= λ start. pure (start_v6 start))
      else if tx_type == fluxnode_confirm_tx_type
      then (lift (read_confirm include_signatures) >>= λ confirm. pure (confirm_v6 confirm))
      else fail (invalid_transaction_format "unknown fluxnode v6 transaction type")

  unfoldable pub decode_fluxnode_v6 : Bool → ReaderOf TransactionDecodeError FluxnodeTxV6
  unfolding ◌>>=◌ lift read_u8 read_body_v6
  decode_fluxnode_v6 include_signatures = do
    tx_type ← lift read_u8
    read_body_v6 include_signatures tx_type
