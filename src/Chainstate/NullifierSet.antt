-- ===== src/Chainstate/NullifierSet.antt =====
-- `NullifierSet` of crates/chainstate/src/anchors.rs: the spent nullifiers in a key-value store.
use fluxd_rust.Prelude.{ℕ, ◌≡◌, ◌≢◌, List, [], Bool, true, false, Option, none, some}
use fluxd_rust.Prelude.Result.{Result, ok, ◌>>=◌}
use fluxd_rust.Storage.Batch
use fluxd_rust.Storage.Batch.{StoreError, Column, WriteBatch, KeyValueStore}
use fluxd_rust.Storage.Memory.Lookup.{StoreLaws, assign_same, assign_apart, get-put, get-delete}

module _ {S : Type 0} (store : KeyValueStore S) where
  -- `is_some`
  is_some : Option (List ℕ) → Bool
  is_some none = false
  is_some (some value) = true

  unfoldable pub contains : Column → List ℕ → S → Result StoreError Bool
  unfolding is_some
  contains column nullifier s = store.get column nullifier s >>= λ value. ok (is_some value)

unfoldable pub insert : Column → List ℕ → WriteBatch → WriteBatch
insert column nullifier b = Batch.put column nullifier [] b

unfoldable pub remove : Column → List ℕ → WriteBatch → WriteBatch
remove column nullifier b = Batch.delete column nullifier b

module _ {S : Type 0} (store : KeyValueStore S) (laws : StoreLaws store) where
  -- In a store that is a map: a nullifier is found when the batch that was written ends with its
  -- `insert`, and not found when the batch ends with its `remove`. For any other nullifier of the
  -- column that last write changes nothing.
  pub contains-insert-remove :
      (column : Column) (nullifier : List ℕ) (b : WriteBatch) (s : S)
      → (contains store column nullifier (store.write_batch (insert column nullifier b) s).0
          ≡ ok true)
        × (contains store column nullifier (store.write_batch (remove column nullifier b) s).0
            ≡ ok false)
        × ((other : List ℕ)
            → nullifier ≢ other
            → (contains store column other (store.write_batch (insert column nullifier b) s).0
                ≡ contains store column other (store.write_batch b s).0)
              × (contains store column other (store.write_batch (remove column nullifier b) s).0
                  ≡ contains store column other (store.write_batch b s).0))
  unfolding contains insert remove is_some
  contains-insert-remove column nullifier b s = (
    rw (get-put store laws b s column nullifier [] nullifier, assign_same),
    rw (get-delete store laws b s column nullifier nullifier, assign_same),
    λ other apart. (
      rw (
        get-put store laws b s column nullifier [] other,
        assign_apart column (some []) _ apart,
        laws.get-view,
        laws.write_batch-view,
      ),
      rw (
        get-delete store laws b s column nullifier other,
        assign_apart column none _ apart,
        laws.get-view,
        laws.write_batch-view,
      ),
    ),
  )
