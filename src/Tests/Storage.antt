-- ===== src/Tests/Storage.antt =====
-- Batches, the store in memory, and the sets kept in it.
use fluxd_rust.Prelude.{ℕ, ◌≡◌, ◌≢◌, refl, List, [], ◌∷◌, none, some}
use fluxd_rust.Prelude.Result.{ok}
use fluxd_rust.Prelude.Slices.{starts_with}
use fluxd_rust.Primitives.OutPoint.{OutPoint, IsOutPoint}
use fluxd_rust.Storage.Batch.{utxo, meta, put, new_batch, WriteBatch, bit, trailing_zeros, index}
use fluxd_rust.Storage.Memory.{
  MemoryStore, new_store, memory_store, insert, apply, same_bytes, same_key, key_lt, bytes_lt,
  matching,
}
use fluxd_rust.Storage.Memory.Lookup.{lookup, assign_all, get-write_batch, memory_store-StoreLaws}
use fluxd_rust.Chainstate.UtxoSet
use fluxd_rust.Chainstate.UtxoSet.{get-put-delete}
use fluxd_rust.Tests.Records.{outpoint, outpoint-IsOutPoint, entry, entry-IsUtxoEntry}

-- A key is written twice, and another key in front of it.
abbrev batch : WriteBatch
batch =
    put meta (1 ∷ []) (7 ∷ [])
      (put utxo (1 ∷ 2 ∷ []) (6 ∷ []) (put meta (1 ∷ []) (5 ∷ []) new_batch))

abbrev written_store : MemoryStore
written_store = (memory_store.write_batch batch new_store).0

scan_written : memory_store.scan_prefix meta (1 ∷ []) written_store ≡ ok ((1 ∷ [], 7 ∷ []) ∷ [])
unfolding memory_store put apply insert same_key same_bytes key_lt bytes_lt matching index bit
    trailing_zeros starts_with
scan_written = refl

get-write_batch_example :
    memory_store.get utxo (1 ∷ 2 ∷ []) (memory_store.write_batch batch new_store).0
    ≡ ok (assign_all batch.ops (lookup new_store.entries) utxo (1 ∷ 2 ∷ []))
get-write_batch_example = get-write_batch batch new_store utxo (1 ∷ 2 ∷ [])

get-put-delete_example :
    (UtxoSet.get memory_store outpoint
        (memory_store.write_batch (UtxoSet.put outpoint entry batch) new_store).0
      ≡ ok (some entry))
    × (UtxoSet.get memory_store outpoint
          (memory_store.write_batch (UtxoSet.delete outpoint batch) new_store).0
        ≡ ok none)
    × ((p : OutPoint)
        → IsOutPoint p
        → outpoint ≢ p
        → (UtxoSet.get memory_store p
              (memory_store.write_batch (UtxoSet.put outpoint entry batch) new_store).0
            ≡ UtxoSet.get memory_store p (memory_store.write_batch batch new_store).0)
          × (UtxoSet.get memory_store p
                (memory_store.write_batch (UtxoSet.delete outpoint batch) new_store).0
              ≡ UtxoSet.get memory_store p (memory_store.write_batch batch new_store).0))
get-put-delete_example =
    get-put-delete memory_store memory_store-StoreLaws outpoint entry batch new_store
      outpoint-IsOutPoint entry-IsUtxoEntry

abbrev anchor : List ℕ
anchor = 3 ∷ 4 ∷ []
