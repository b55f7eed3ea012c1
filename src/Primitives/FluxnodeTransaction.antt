-- ===== src/Primitives/FluxnodeTransaction.antt =====
-- crates/primitives/src/transaction.rs: the payloads of the fluxnode transactions.
pub mod Version
pub mod Encode
pub mod Decode
pub mod Kept
use fluxd_rust.Prelude.{ℕ, List, [], Bool, ◌&&◌, Option, if◌then◌else◌, ◌==◌}
use fluxd_rust.Prelude.Int.{ℤ}
use fluxd_rust.Primitives.Encoding.{
  Encoder, new_encoder, into_inner, ◌▷◌, write_u8, write_var_bytes, Reader, ◌>>=◌, pure, read_u8,
  read_var_bytes,
}
use fluxd_rust.Primitives.Encoding.Vectors.{write_vec, read_vec}
use fluxd_rust.Primitives.OutPoint.{OutPoint}

pub record FluxnodeDelegates : Type 0 where
  pub version : ℕ
  pub kind : ℕ
  pub delegate_starting_keys : List (List ℕ)

pub record FluxnodeConfirmTx : Type 0 where
  pub collateral : OutPoint
  pub sig_time : ℕ
  pub benchmark_tier : ℕ
  pub benchmark_sig_time : ℕ
  pub update_type : ℕ
  pub ip : List ℕ
  pub sig : List ℕ
  pub benchmark_sig : List ℕ

pub record FluxnodeStartV5 : Type 0 where
  pub collateral : OutPoint
  pub collateral_pubkey : List ℕ
  pub pubkey : List ℕ
  pub sig_time : ℕ
  pub sig : List ℕ

-- The fields of each variant, in the source's order: the collateral and its public key or the redeem script,
-- the operator's public key, the time and the signature.
pub data FluxnodeStartVariantV6 : Type 0 where
  normal :
      (collateral : OutPoint) (collateral_pubkey pubkey : List ℕ) (sig_time : ℕ) (sig : List ℕ)
      → FluxnodeStartVariantV6
  p2sh :
      (collateral : OutPoint) (pubkey redeem_script : List ℕ) (sig_time : ℕ) (sig : List ℕ)
      → FluxnodeStartVariantV6

pub record FluxnodeStartV6 : Type 0 where
  pub flux_tx_version : ℤ
  pub variant : FluxnodeStartVariantV6
  pub using_delegates : Bool
  pub delegates : Option FluxnodeDelegates

pub data FluxnodeTxV5 : Type 0 where
  start_v5 : FluxnodeStartV5 → FluxnodeTxV5
  confirm_v5 : FluxnodeConfirmTx → FluxnodeTxV5

pub data FluxnodeTxV6 : Type 0 where
  start_v6 : FluxnodeStartV6 → FluxnodeTxV6
  confirm_v6 : FluxnodeConfirmTx → FluxnodeTxV6

pub data FluxnodeTx : Type 0 where
  v5 : FluxnodeTxV5 → FluxnodeTx
  v6 : FluxnodeTxV6 → FluxnodeTx

unfoldable pub write_delegates : FluxnodeDelegates → Encoder → Encoder
unfolding write_vec
write_delegates d e =
    let head = e ▷ write_u8 d.version ▷ write_u8 d.kind in
    if d.version == 1 && d.kind == 1
    then write_vec write_var_bytes d.delegate_starting_keys head
    else head

unfoldable pub encode_delegates : FluxnodeDelegates → List ℕ
unfolding write_delegates
encode_delegates d = into_inner (write_delegates d new_encoder)

read_keys : ℕ → ℕ → Reader (List (List ℕ))
unfolding pure read_vec read_var_bytes
read_keys version kind = if version == 1 && kind == 1 then read_vec read_var_bytes else pure []

unfoldable pub read_delegates : Reader FluxnodeDelegates
unfolding ◌>>=◌ pure read_u8 read_keys
read_delegates = do
  version ← read_u8
  kind ← read_u8
  delegate_starting_keys ← read_keys version kind
  pure (record { version = version; kind = kind; delegate_starting_keys = delegate_starting_keys })
