-- ===== src/Chainstate/TxIndex.antt =====
-- crates/chainstate/src/txindex.rs: where a transaction stands, in a key-value store.
use fluxd_rust.Prelude.{
  ℕ, ◌^◌, ◌<◌, ◌≡◌, ◌≢◌, ap, List, ◌++◌, length, length-append, take, drop, Option, none, some,
  if◌then◌else◌, ◌==◌, ==_iff, arith,
}
use fluxd_rust.Prelude.Slices.{take-append, drop-append, take_all}
use fluxd_rust.Prelude.Result.{Result, ok, err, ◌>>=◌}
use fluxd_rust.Primitives.Bytes.{
  to_le_bytes, from_le_bytes, length-to_le_bytes, from_le_bytes-to_le_bytes,
}
use fluxd_rust.Chainstate.FileLocation
use fluxd_rust.Chainstate.FileLocation.{FileLocation, IsFileLocation}
use fluxd_rust.Storage.Batch
use fluxd_rust.Storage.Batch.{StoreError, backend, tx_index, WriteBatch, KeyValueStore}
use fluxd_rust.Storage.Memory.Lookup.{StoreLaws, assign_same, assign_apart, get-put, get-delete}

pub record TxLocation : Type 0 where
  pub block : FileLocation
  pub index : ℕ

unfoldable pub encode : TxLocation → List ℕ
encode t = FileLocation.encode t.block ++ to_le_bytes 4 t.index

unfoldable pub decode : List ℕ → Option TxLocation
decode bytes =
    if length bytes == 20
    then elim (FileLocation.decode (take 16 bytes)) [
      | none ↦ none
      | some block ↦ some (record { block = block; index = from_le_bytes (take 4 (drop 16 bytes)) })
    ]
    else none

pub record IsTxLocation (t : TxLocation) : Type 0 where
  pub block_range : IsFileLocation t.block
  pub index_range : t.index < 2 ^ 32

decode-encode_tx : (t : TxLocation) → IsTxLocation t → decode (encode t) ≡ some t
unfolding decode encode
decode-encode_tx t h =
    let block_len = FileLocation.length-encode t.block in
    let index_len = length-to_le_bytes 4 t.index in
    let len : length (FileLocation.encode t.block ++ to_le_bytes 4 t.index) ≡ 20 = omega (
      arith,
      length-append {0} (FileLocation.encode t.block) (to_le_bytes 4 t.index),
      block_len,
      index_len,
    ) in
    rw (
      (==_iff _ _).1 len,
      take-append 16 (FileLocation.encode t.block) (to_le_bytes 4 t.index) block_len,
      FileLocation.decode-encode t.block h.block_range,
      drop-append 16 (FileLocation.encode t.block) (to_le_bytes 4 t.index) block_len,
      take_all 4 (to_le_bytes 4 t.index) index_len,
      from_le_bytes-to_le_bytes 4 t.index h.index_range,
    )

unfoldable pub insert : List ℕ → TxLocation → WriteBatch → WriteBatch
insert txid location b = Batch.put tx_index txid (encode location) b

unfoldable pub delete : List ℕ → WriteBatch → WriteBatch
delete txid b = Batch.delete tx_index txid b

-- `.ok_or_else(..).map(Some)`
found : Option TxLocation → Result StoreError (Option TxLocation)
found none = err (backend "invalid tx index entry")
found (some location) = ok (some location)

location_of : Option (List ℕ) → Result StoreError (Option TxLocation)
unfolding found
location_of none = ok none
location_of (some bytes) = found (decode bytes)

location_of-encode : (t : TxLocation) → IsTxLocation t → location_of (some (encode t)) ≡ ok (some t)
unfolding location_of found
location_of-encode t h = ap found (decode-encode_tx t h)

unfoldable pub get :
    {S : Type 0} → KeyValueStore S → List ℕ → S → Result StoreError (Option TxLocation)
unfolding location_of
get store txid s = store.get tx_index txid s >>= location_of

module _ {S : Type 0} (store : KeyValueStore S) (laws : StoreLaws store) where
  -- In a store that is a map: when the batch that was written ends with the `insert` of a location
  -- in range, the location is read back. When it ends with the `delete`, there is none. For any
  -- other transaction that last write changes nothing.
  get-insert-delete :
      (txid : List ℕ) (t : TxLocation) (b : WriteBatch) (s : S)
      → IsTxLocation t
      → (get store txid (store.write_batch (insert txid t b) s).0 ≡ ok (some t))
        × (get store txid (store.write_batch (delete txid b) s).0 ≡ ok none)
        × ((other : List ℕ)
            → txid ≢ other
            → (get store other (store.write_batch (insert txid t b) s).0
                ≡ get store other (store.write_batch b s).0)
              × (get store other (store.write_batch (delete txid b) s).0
                  ≡ get store other (store.write_batch b s).0))
  unfolding get insert delete location_of
  get-insert-delete txid t b s h = (
    rw (get-put store laws b s tx_index txid (encode t) txid, assign_same) (location_of-encode t h),
    rw (get-delete store laws b s tx_index txid txid, assign_same),
    λ other apart. (
      rw (
        get-put store laws b s tx_index txid (encode t) other,
        assign_apart tx_index (some (encode t)) _ apart,
        laws.get-view,
        laws.write_batch-view,
      ),
      rw (
        get-delete store laws b s tx_index txid other,
        assign_apart tx_index none _ apart,
        laws.get-view,
        laws.write_batch-view,
      ),
    ),
  )
