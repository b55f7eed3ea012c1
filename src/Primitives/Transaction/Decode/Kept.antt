-- ===== src/Primitives/Transaction/Decode/Kept.antt =====
-- What the encoding of a transaction in transaction.rs keeps of it, and the ranges of the fields.
use fluxd_rust.Prelude.{
  is_nil, ℕ, ◌^◌, ◌≤◌, ◌<◌, ◌≡◌, List, [], length, replicate, Bool, false, not, ◌&&◌, ◌||◌, Option,
  none, some, if◌then◌else◌,
}
use fluxd_rust.Prelude.Int.{ℤ, pos, negsuc, eq_ℤ, leb_ℤ}
use fluxd_rust.Primitives.Bytes.{IsSigned}
use fluxd_rust.Primitives.Encoding.{max_compact_size}
use fluxd_rust.Primitives.Encoding.Reads.{All}
use fluxd_rust.Primitives.FluxnodeTransaction.{FluxnodeTx, v5, v6}
use fluxd_rust.Primitives.FluxnodeTransaction.Kept.{
  kept_v5, kept_v6, IsFluxnodeTxV5, IsFluxnodeTxV6,
}
use fluxd_rust.Primitives.Transaction.{Transaction, is_overwinter_v3, is_sapling_v4}
use fluxd_rust.Primitives.Transaction.Parts.{
  SpendDescription, OutputDescription, IsTxIn, IsTxOut, IsSpendDescription, IsOutputDescription,
}
use fluxd_rust.Primitives.Transaction.JoinSplits.{JoinSplit, IsJoinSplit}
use fluxd_rust.Primitives.Transaction.Decode.{payload_transaction, no_keys}

abbrev pub kept_sapling : Transaction → Bool → ℤ × List SpendDescription × List OutputDescription
kept_sapling tx v4 =
    if v4 then (tx.value_balance, tx.shielded_spends, tx.shielded_outputs) else (pos 0, [], [])

-- The key and the signature stand there where a join split does.
abbrev pub kept_keys : Transaction → List ℕ × List ℕ
kept_keys tx =
    if not (is_nil tx.join_splits) then (tx.join_split_pub_key, tx.join_split_sig) else no_keys

abbrev pub kept_splits : Transaction → List JoinSplit × List ℕ × List ℕ
kept_splits tx =
    if leb_ℤ (pos 2) tx.version
    then (tx.join_splits, (kept_keys tx).0, (kept_keys tx).1)
    else ([], no_keys.0, no_keys.1)

abbrev pub kept_group : Transaction → ℕ
kept_group tx = if tx.f_overwintered then tx.version_group_id else 0

abbrev pub is_shielded : Bool → ℤ × List SpendDescription × List OutputDescription → Bool
is_shielded v4 sapling = v4 && not (is_nil sapling.1 && is_nil sapling.2)

abbrev pub kept_formats : Transaction → Bool → Bool → Transaction
kept_formats tx v3 v4 = record {
  f_overwintered = tx.f_overwintered;
  version = tx.version;
  version_group_id = kept_group tx;
  vin = tx.vin;
  vout = tx.vout;
  lock_time = tx.lock_time;
  expiry_height = if v3 || v4 then tx.expiry_height else 0;
  value_balance = (kept_sapling tx v4).0;
  shielded_spends = (kept_sapling tx v4).1;
  shielded_outputs = (kept_sapling tx v4).2;
  join_splits = (kept_splits tx).0;
  join_split_pub_key = (kept_splits tx).1;
  join_split_sig = (kept_splits tx).2;
  binding_sig = if is_shielded v4 (kept_sapling tx v4) then tx.binding_sig else replicate 64 0;
  fluxnode = none;
}

abbrev pub kept_fluxnode : Bool → FluxnodeTx → FluxnodeTx
kept_fluxnode include_signatures (v5 body) = v5 (kept_v5 include_signatures body)
kept_fluxnode include_signatures (v6 body) = v6 (kept_v6 include_signatures body)

abbrev pub kept_payload : Transaction → Bool → Option FluxnodeTx → Transaction
kept_payload tx include_signatures none = tx
kept_payload tx include_signatures (some fluxnode) =
    payload_transaction false tx.version 0 (kept_fluxnode include_signatures fluxnode)

-- A fluxnode transaction keeps its payload alone; another one, the fields that its format has.
unfoldable pub kept : Transaction → Bool → Transaction
kept tx include_signatures =
    if eq_ℤ tx.version (pos 5) || eq_ℤ tx.version (pos 6)
    then kept_payload tx include_signatures tx.fluxnode
    else kept_formats tx (is_overwinter_v3 tx.f_overwintered tx.version_group_id tx.version)
        (is_sapling_v4 tx.f_overwintered tx.version_group_id tx.version)

-- The header has 31 bits for the version.
abbrev pub IsVersion : ℤ → Type 0
IsVersion (pos n) = n < 2 ^ 31
IsVersion (negsuc n) = ⊥

-- A vector within the reader's limit.
abbrev pub IsVec : {A : Type 0} → (A → Type 0) → List A → Type 0
IsVec P xs = (length xs ≤ max_compact_size) × All P xs

abbrev pub IsFluxnode : (List ℕ → Bool) → Option FluxnodeTx → Type 0
IsFluxnode is_utf8 none = Unit {0}
IsFluxnode is_utf8 (some (v5 body)) = IsFluxnodeTxV5 is_utf8 body
IsFluxnode is_utf8 (some (v6 body)) = IsFluxnodeTxV6 is_utf8 body

pub record IsTransaction (is_utf8 : List ℕ → Bool) (tx : Transaction) : Type 0 where
  pub version_range : IsVersion tx.version
  pub version_group_id_range : tx.version_group_id < 2 ^ 32
  pub vin_sizes : IsVec IsTxIn tx.vin
  pub vout_sizes : IsVec IsTxOut tx.vout
  pub lock_time_range : tx.lock_time < 2 ^ 32
  pub expiry_height_range : tx.expiry_height < 2 ^ 32
  pub value_balance_range : IsSigned (2 ^ 64) tx.value_balance
  pub shielded_spends_sizes : IsVec IsSpendDescription tx.shielded_spends
  pub shielded_outputs_sizes : IsVec IsOutputDescription tx.shielded_outputs
  pub join_splits_sizes : IsVec IsJoinSplit tx.join_splits
  pub join_split_pub_key_size : length tx.join_split_pub_key ≡ 32
  pub join_split_sig_size : length tx.join_split_sig ≡ 64
  pub binding_sig_size : length tx.binding_sig ≡ 64
  pub fluxnode_sizes : IsFluxnode is_utf8 tx.fluxnode
