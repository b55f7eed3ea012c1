-- ===== src/Primitives/Transaction/Identity.antt =====
-- What the identifier of a transaction in transaction.rs depends on.
use Prim.Native.String.{String}
use fluxd_rust.Prelude.{ℕ, ◌≡◌, refl, List, Bool, true, false, Option, none, some}
use fluxd_rust.Prelude.Result.{Result}
use fluxd_rust.Primitives.Encoding.{Encoder}
use fluxd_rust.Primitives.FluxnodeTransaction.{
  FluxnodeConfirmTx, FluxnodeStartVariantV6, normal, p2sh, FluxnodeTx, v5, v6, start_v5, confirm_v5,
  start_v6, confirm_v6,
}
use fluxd_rust.Primitives.FluxnodeTransaction.Encode.{
  write_variant, write_sig, write_start_v5, write_confirm, write_start_v6, encode_fluxnode_v5,
  encode_fluxnode_v6,
}
use fluxd_rust.Primitives.Transaction.{Transaction, header}
use fluxd_rust.Primitives.Transaction.Errors.{TransactionEncodeError}
use fluxd_rust.Primitives.Transaction.Encode.{
  encode_present, encode_payload, encode_formats, encode_body, encode_into, encode_with_mode,
  consensus_encode_for_hash, txid,
}

-- Other signatures in a payload, in the order of its fields.
abbrev sign_confirm : List ℕ → List ℕ → FluxnodeConfirmTx → FluxnodeConfirmTx
sign_confirm sig benchmark_sig confirm = record {
  collateral = confirm.collateral;
  sig_time = confirm.sig_time;
  benchmark_tier = confirm.benchmark_tier;
  benchmark_sig_time = confirm.benchmark_sig_time;
  update_type = confirm.update_type;
  ip = confirm.ip;
  sig = sig;
  benchmark_sig = benchmark_sig;
}

abbrev sign_variant : List ℕ → FluxnodeStartVariantV6 → FluxnodeStartVariantV6
sign_variant sig (normal collateral collateral_pubkey pubkey sig_time _) =
    normal collateral collateral_pubkey pubkey sig_time sig
sign_variant sig (p2sh collateral pubkey redeem_script sig_time _) =
    p2sh collateral pubkey redeem_script sig_time sig

abbrev pub sign : List ℕ → List ℕ → FluxnodeTx → FluxnodeTx
sign sig benchmark_sig (v5 (start_v5 start)) = v5 (
    start_v5 (record {
      collateral = start.collateral;
      collateral_pubkey = start.collateral_pubkey;
      pubkey = start.pubkey;
      sig_time = start.sig_time;
      sig = sig;
    }))
sign sig benchmark_sig (v5 (confirm_v5 confirm)) =
    v5 (confirm_v5 (sign_confirm sig benchmark_sig confirm))
sign sig benchmark_sig (v6 (start_v6 start)) = v6 (
    start_v6 (record {
      flux_tx_version = start.flux_tx_version;
      variant = sign_variant sig start.variant;
      using_delegates = start.using_delegates;
      delegates = start.delegates;
    }))
sign sig benchmark_sig (v6 (confirm_v6 confirm)) =
    v6 (confirm_v6 (sign_confirm sig benchmark_sig confirm))

abbrev pub sign_option : List ℕ → List ℕ → Option FluxnodeTx → Option FluxnodeTx
sign_option sig benchmark_sig none = none
sign_option sig benchmark_sig (some fluxnode) = some (sign sig benchmark_sig fluxnode)

abbrev pub with_signatures : List ℕ → List ℕ → Transaction → Transaction
with_signatures sig benchmark_sig tx = record tx {
  fluxnode = sign_option sig benchmark_sig tx.fluxnode;
}

module _ (sig benchmark_sig : List ℕ) where
  write_variant-sign_variant :
      (v : FluxnodeStartVariantV6) (n p : Bool) (e : Encoder)
      → write_variant (sign_variant sig v) n p false e ≡ write_variant v n p false e
  unfolding write_variant write_sig
  write_variant-sign_variant (normal _ _ _ _ _) true p e = refl
  write_variant-sign_variant (normal _ _ _ _ _) false true e = refl
  write_variant-sign_variant (normal _ _ _ _ _) false false e = refl
  write_variant-sign_variant (p2sh _ _ _ _ _) true p e = refl
  write_variant-sign_variant (p2sh _ _ _ _ _) false true e = refl
  write_variant-sign_variant (p2sh _ _ _ _ _) false false e = refl

  encode_v5-sign :
      (fluxnode : FluxnodeTx) (e : Encoder)
      → encode_fluxnode_v5 (sign sig benchmark_sig fluxnode) false e
        ≡ encode_fluxnode_v5 fluxnode false e
  unfolding encode_fluxnode_v5 write_start_v5 write_confirm write_sig
  encode_v5-sign (v5 (start_v5 start)) e = refl
  encode_v5-sign (v5 (confirm_v5 confirm)) e = refl
  encode_v5-sign (v6 (start_v6 start)) e = refl
  encode_v5-sign (v6 (confirm_v6 confirm)) e = refl

  encode_v6-sign :
      (fluxnode : FluxnodeTx) (e : Encoder)
      → encode_fluxnode_v6 (sign sig benchmark_sig fluxnode) false e
        ≡ encode_fluxnode_v6 fluxnode false e
  unfolding encode_fluxnode_v6 write_start_v6 write_confirm write_sig
  encode_v6-sign (v5 (start_v5 start)) e = refl
  encode_v6-sign (v5 (confirm_v5 confirm)) e = refl
  encode_v6-sign (v6 (start_v6 start)) e = rw (write_variant-sign_variant start.variant) refl
  encode_v6-sign (v6 (confirm_v6 confirm)) e = refl

  encode_present-sign :
      (encode : FluxnodeTx → Bool → Encoder → Result TransactionEncodeError Encoder)
      → ((fluxnode : FluxnodeTx) (e : Encoder)
          → encode (sign sig benchmark_sig fluxnode) false e ≡ encode fluxnode false e)
      → (missing : String) (o : Option FluxnodeTx) (e : Encoder)
      → encode_present encode missing false (sign_option sig benchmark_sig o) e
        ≡ encode_present encode missing false o e
  unfolding encode_present
  encode_present-sign encode same missing none e = refl
  encode_present-sign encode same missing (some fluxnode) e = same fluxnode e

  encode_body-sign :
      (tx : Transaction) (e : Encoder)
      → encode_body (with_signatures sig benchmark_sig tx) false e ≡ encode_body tx false e
  unfolding encode_body encode_payload encode_formats
  encode_body-sign tx e =
      rw
        (
          encode_present-sign encode_fluxnode_v5 encode_v5-sign,
          encode_present-sign encode_fluxnode_v6 encode_v6-sign,
        )
        refl

  -- The identifier of a transaction does not depend on the signatures of its fluxnode payload.
  pub txid-with_signatures :
      (sha256d : List ℕ → List ℕ) (tx : Transaction)
      → txid sha256d (with_signatures sig benchmark_sig tx) ≡ txid sha256d tx
  unfolding txid consensus_encode_for_hash encode_with_mode encode_into header
  txid-with_signatures sha256d tx = rw (encode_body-sign tx) refl
