-- ===== src/Storage/Batch.antt =====
-- crates/storage/src/lib.rs: the columns and the write batch. Keys and values are bytes.
use Prim.Native.String.{String}
use fluxd_rust.Prelude.{
  ℕ, zero, suc, ◌/◌, ◌%◌, ◌^◌, List, [], ◌∷◌, ◌++◌, Option, length, ◌==◌, if◌then◌else◌,
}
use fluxd_rust.Prelude.Result.{Result}

pub data StoreError : Type 0 where
  backend : String → StoreError

pub data Column : Type 0 where
  block_index header_index height_index block_header tx_index spent_index utxo anchor_sprout
        anchor_sapling nullifier_sprout nullifier_sapling fluxnode fluxnode_key address_outpoint
        address_delta timestamp_index block_timestamp block_undo meta unconnected_block :
      Column

abbrev pub all_columns : List Column
all_columns =
    block_index ∷ header_index ∷ height_index ∷ block_header ∷ tx_index ∷ spent_index ∷ utxo
    ∷ anchor_sprout ∷ anchor_sapling ∷ nullifier_sprout ∷ nullifier_sapling ∷ fluxnode
    ∷ fluxnode_key ∷ address_outpoint ∷ address_delta ∷ timestamp_index ∷ block_timestamp
    ∷ block_undo ∷ meta ∷ unconnected_block ∷ []

unfoldable pub bit : Column → ℕ
bit block_index = 2 ^ 0
bit header_index = 2 ^ 1
bit height_index = 2 ^ 2
bit block_header = 2 ^ 3
bit tx_index = 2 ^ 4
bit spent_index = 2 ^ 5
bit utxo = 2 ^ 6
bit anchor_sprout = 2 ^ 7
bit anchor_sapling = 2 ^ 8
bit nullifier_sprout = 2 ^ 9
bit nullifier_sapling = 2 ^ 10
bit fluxnode = 2 ^ 11
bit fluxnode_key = 2 ^ 12
bit address_outpoint = 2 ^ 13
bit address_delta = 2 ^ 14
bit timestamp_index = 2 ^ 15
bit block_timestamp = 2 ^ 16
bit block_undo = 2 ^ 17
bit meta = 2 ^ 18
bit unconnected_block = 2 ^ 19

-- `u32::trailing_zeros`, which is 32 at zero: one round for each bit.
unfoldable pub trailing_zeros : ℕ → ℕ → ℕ
trailing_zeros zero n = 0
trailing_zeros (suc fuel) n =
    let rest = trailing_zeros fuel (n / 2) in if n % 2 == 1 then 0 else suc rest

unfoldable pub index : Column → ℕ
unfolding bit trailing_zeros
index column = trailing_zeros 32 (bit column)

unfoldable pub as_str : Column → String
as_str block_index = "block_index"
as_str header_index = "header_index"
as_str height_index = "height_index"
as_str block_header = "block_header"
as_str tx_index = "tx_index"
as_str spent_index = "spent_index"
as_str utxo = "utxo"
as_str anchor_sprout = "anchor_sprout"
as_str anchor_sapling = "anchor_sapling"
as_str nullifier_sprout = "nullifier_sprout"
as_str nullifier_sapling = "nullifier_sapling"
as_str fluxnode = "fluxnode"
as_str fluxnode_key = "fluxnode_key"
as_str address_outpoint = "address_outpoint"
as_str address_delta = "address_delta"
as_str timestamp_index = "timestamp_index"
as_str block_timestamp = "block_timestamp"
as_str block_undo = "block_undo"
as_str meta = "meta"
as_str unconnected_block = "unconnected_block"

pub data WriteOp : Type 0 where
  put_op : Column → List ℕ → List ℕ → WriteOp
  delete_op : Column → List ℕ → WriteOp

pub record WriteBatch : Type 0 where
  pub ops : List WriteOp

abbrev pub new_batch : WriteBatch
new_batch = record { ops = [] }

unfoldable pub put : Column → List ℕ → List ℕ → WriteBatch → WriteBatch
put column key value b = record { ops = b.ops ++ (put_op column key value ∷ []) }

unfoldable pub delete : Column → List ℕ → WriteBatch → WriteBatch
delete column key b = record { ops = b.ops ++ (delete_op column key ∷ []) }

unfoldable pub len : WriteBatch → ℕ
len b = length b.ops

-- The trait `KeyValueStore`, of a store in the state `S`: a writing operation returns the new
-- state. `for_each_prefix`, for which a visitor has a state of its own, stands with the store.
pub record KeyValueStore (S : Type 0) : Type 1 where
  pub get : Column → List ℕ → S → Result StoreError (Option (List ℕ))
  pub put : Column → List ℕ → List ℕ → S → S × Result StoreError (Unit {0})
  pub delete : Column → List ℕ → S → S × Result StoreError (Unit {0})
  pub scan_prefix : Column → List ℕ → S → Result StoreError (List (List ℕ × List ℕ))
  pub write_batch : WriteBatch → S → S × Result StoreError (Unit {0})
