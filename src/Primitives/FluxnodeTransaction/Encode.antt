-- ===== src/Primitives/FluxnodeTransaction/Encode.antt =====
-- crates/primitives/src/transaction.rs: writing the payload of a fluxnode transaction.
use fluxd_rust.Prelude.{ℕ, Bool, true, false, List, Option, none, some, if◌then◌else◌}
use fluxd_rust.Prelude.Result.{Result, ok, err, ◌>>=◌}
use fluxd_rust.Primitives.Encoding.{
  Encoder, ◌▷◌, write_u8, write_u32_le, write_i32_le, write_var_bytes, write_var_str,
}
use fluxd_rust.Primitives.OutPoint
use fluxd_rust.Primitives.FluxnodeTransaction.{
  FluxnodeDelegates, FluxnodeConfirmTx, FluxnodeStartV5, FluxnodeStartVariantV6, normal, p2sh,
  FluxnodeStartV6, start_v5, confirm_v5, start_v6, confirm_v6, FluxnodeTx, v5, v6, write_delegates,
}
use fluxd_rust.Primitives.FluxnodeTransaction.Version.{
  is_normal, is_p2sh, has_flux_tx_delegates_feature,
}
use fluxd_rust.Primitives.Transaction.Errors.{TransactionEncodeError, invalid_format}

abbrev pub fluxnode_start_tx_type : ℕ
fluxnode_start_tx_type = 2

abbrev pub fluxnode_confirm_tx_type : ℕ
fluxnode_confirm_tx_type = 4

-- `if include_signatures { .. }`
unfoldable pub write_sig : Bool → List ℕ → Encoder → Encoder
write_sig include_signatures sig e = if include_signatures then write_var_bytes sig e else e

unfoldable pub write_start_v5 : FluxnodeStartV5 → Bool → Encoder → Encoder
unfolding OutPoint.consensus_encode write_sig
write_start_v5 start include_signatures e =
    e
    ▷ write_u8 fluxnode_start_tx_type
    ▷ OutPoint.consensus_encode start.collateral
    ▷ write_var_bytes start.collateral_pubkey
    ▷ write_var_bytes start.pubkey
    ▷ write_u32_le start.sig_time
    ▷ write_sig include_signatures start.sig

-- The same in both versions.
unfoldable pub write_confirm : FluxnodeConfirmTx → Bool → Encoder → Encoder
unfolding OutPoint.consensus_encode write_sig
write_confirm confirm include_signatures e =
    e
    ▷ write_u8 fluxnode_confirm_tx_type
    ▷ OutPoint.consensus_encode confirm.collateral
    ▷ write_u32_le confirm.sig_time
    ▷ write_u8 confirm.benchmark_tier
    ▷ write_u32_le confirm.benchmark_sig_time
    ▷ write_u8 confirm.update_type
    ▷ write_var_str confirm.ip
    ▷ write_sig include_signatures confirm.sig
    ▷ write_sig include_signatures confirm.benchmark_sig

unfoldable pub encode_fluxnode_v5 :
    FluxnodeTx → Bool → Encoder → Result TransactionEncodeError Encoder
unfolding write_start_v5 write_confirm
encode_fluxnode_v5 (v5 (start_v5 start)) include_signatures e =
    ok (write_start_v5 start include_signatures e)
encode_fluxnode_v5 (v5 (confirm_v5 confirm)) include_signatures e =
    ok (write_confirm confirm include_signatures e)
encode_fluxnode_v5 (v6 body) include_signatures e =
    err (invalid_format "expected v5 fluxnode payload")

-- The fields of a start, which the version's bits must agree with.
unfoldable pub write_variant :
    FluxnodeStartVariantV6 → Bool → Bool → Bool → Encoder → Result TransactionEncodeError Encoder
unfolding OutPoint.consensus_encode write_sig
write_variant (normal collateral collateral_pubkey pubkey sig_time sig) true _ include_signatures
      e =
    ok (
      e
      ▷ OutPoint.consensus_encode collateral
      ▷ write_var_bytes collateral_pubkey
      ▷ write_var_bytes pubkey
      ▷ write_u32_le sig_time
      ▷ write_sig include_signatures sig)
write_variant (p2sh collateral pubkey redeem_script sig_time sig) true _ include_signatures e =
    err (invalid_format "fluxnode v6 normal start missing fields")
write_variant (normal collateral collateral_pubkey pubkey sig_time sig) false true
      include_signatures e =
    err (invalid_format "fluxnode v6 p2sh start missing fields")
write_variant (p2sh collateral pubkey redeem_script sig_time sig) false true include_signatures e =
    ok (
      e
      ▷ OutPoint.consensus_encode collateral
      ▷ write_var_bytes pubkey
      ▷ write_var_bytes redeem_script
      ▷ write_u32_le sig_time
      ▷ write_sig include_signatures sig)
write_variant variant false false include_signatures e =
    err (invalid_format "fluxnode v6 start has invalid version bits")

-- The flag, and the delegates where it is set.
unfoldable pub write_flagged_delegates :
    Bool → Option FluxnodeDelegates → Encoder → Result TransactionEncodeError Encoder
unfolding write_delegates
write_flagged_delegates false delegates e = ok (e ▷ write_u8 0)
write_flagged_delegates true (some delegates) e = ok (e ▷ write_u8 1 ▷ write_delegates delegates)
write_flagged_delegates true none e =
    err (invalid_format "missing delegates data for fluxnode v6 start")

unfoldable pub write_start_v6 :
    FluxnodeStartV6 → Bool → Encoder → Result TransactionEncodeError Encoder
unfolding write_variant write_flagged_delegates is_normal is_p2sh has_flux_tx_delegates_feature
write_start_v6 start include_signatures e =
    let head = e ▷ write_u8 fluxnode_start_tx_type ▷ write_i32_le start.flux_tx_version in
    write_variant start.variant (is_normal start.flux_tx_version) (is_p2sh start.flux_tx_version)
      include_signatures head
    >>= λ e'.
        if has_flux_tx_delegates_feature start.flux_tx_version
        then write_flagged_delegates start.using_delegates start.delegates e'
        else ok e'

unfoldable pub encode_fluxnode_v6 :
    FluxnodeTx → Bool → Encoder → Result TransactionEncodeError Encoder
unfolding write_start_v6 write_confirm
encode_fluxnode_v6 (v6 (start_v6 start)) include_signatures e =
    write_start_v6 start include_signatures e
encode_fluxnode_v6 (v6 (confirm_v6 confirm)) include_signatures e =
    ok (write_confirm confirm include_signatures e)
encode_fluxnode_v6 (v5 body) include_signatures e =
    err (invalid_format "expected v6 fluxnode payload")
