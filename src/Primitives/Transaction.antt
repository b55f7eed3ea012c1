-- ===== src/Primitives/Transaction.antt =====
-- crates/primitives/src/transaction.rs: transactions and their encoding.
pub mod Errors
pub mod Parts
pub mod JoinSplits
pub mod Optional
pub mod Encode
pub mod Decode
pub mod Identity
use fluxd_rust.Prelude.{ℕ, ◌+◌, ◌%◌, ◌^◌, List, Bool, Option, ◌==◌, ◌&&◌, if◌then◌else◌}
use fluxd_rust.Prelude.Int.{ℤ, pos, eq_ℤ}
use fluxd_rust.Primitives.Bytes.{as_unsigned}
use fluxd_rust.Primitives.FluxnodeTransaction.{FluxnodeTx}
use fluxd_rust.Primitives.Transaction.Parts.{TxIn, TxOut, SpendDescription, OutputDescription}
use fluxd_rust.Primitives.Transaction.JoinSplits.{JoinSplit}

abbrev pub overwinter_version_group_id : ℕ
overwinter_version_group_id = 0x03c4_8270

abbrev pub sapling_version_group_id : ℕ
sapling_version_group_id = 0x892f_2085

pub record Transaction : Type 0 where
  pub f_overwintered : Bool
  pub version : ℤ
  pub version_group_id : ℕ
  pub vin : List TxIn
  pub vout : List TxOut
  pub lock_time : ℕ
  pub expiry_height : ℕ
  pub value_balance : ℤ
  pub shielded_spends : List SpendDescription
  pub shielded_outputs : List OutputDescription
  pub join_splits : List JoinSplit
  pub join_split_pub_key : List ℕ
  pub join_split_sig : List ℕ
  pub binding_sig : List ℕ
  pub fluxnode : Option FluxnodeTx

-- `header |= 1 << 31` sets the highest bit of a 32-bit word.
unfoldable pub header : Transaction → ℕ
header tx =
    let word = as_unsigned (2 ^ 32) tx.version in
    if tx.f_overwintered then word % 2 ^ 31 + 2 ^ 31 else word

-- The local variables of the encoder and the decoder.
abbrev pub is_overwinter_v3 : Bool → ℕ → ℤ → Bool
is_overwinter_v3 f_overwintered version_group_id version =
    f_overwintered && (version_group_id == overwinter_version_group_id) && eq_ℤ version (pos 3)

abbrev pub is_sapling_v4 : Bool → ℕ → ℤ → Bool
is_sapling_v4 f_overwintered version_group_id version =
    f_overwintered && (version_group_id == sapling_version_group_id) && eq_ℤ version (pos 4)
