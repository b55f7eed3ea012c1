-- ===== src/Chainstate/AnchorSet.antt =====
-- `AnchorSet` of crates/chainstate/src/anchors.rs: anchors with their trees in a key-value store.
use fluxd_rust.Prelude.{ℕ, ◌≡◌, ◌≢◌, List, Bool, true, false, Option, none, some}
use fluxd_rust.Prelude.Result.{Result, ok, ◌>>=◌}
use fluxd_rust.Storage.Batch
use fluxd_rust.Storage.Batch.{StoreError, Column, WriteBatch, KeyValueStore}
use fluxd_rust.Storage.Memory.Lookup.{StoreLaws, assign_same, assign_apart, get-put, get-delete}

module _ {S : Type 0} (store : KeyValueStore S) where
  -- `is_some`
  is_some : Option (List ℕ) → Bool
  is_some none = false
  is_some (some value) = true

  unfoldable pub get : Column → List ℕ → S → Result StoreError (Option (List ℕ))
  get column anchor s = store.get column anchor s

  unfoldable pub contains : Column → List ℕ → S → Result StoreError Bool
  unfolding is_some
  contains column anchor s = store.get column anchor s >>= λ value. ok (is_some value)

unfoldable pub insert : Column → List ℕ → List ℕ → WriteBatch → WriteBatch
insert column anchor tree b = Batch.put column anchor tree b

unfoldable pub remove : Column → List ℕ → WriteBatch → WriteBatch
remove column anchor b = Batch.delete column anchor b

module _ {S : Type 0} (store : KeyValueStore S) (laws : StoreLaws store) where
  -- In a store that is a map: when the batch that was written ends with the `insert` of an anchor,
  -- its tree is read back and the anchor is found. When it ends with the `remove`, neither holds.
  -- For any other anchor of the column that last write changes nothing.
  pub get-insert-remove :
      (column : Column) (anchor tree : List ℕ) (b : WriteBatch) (s : S)
      → (get store column anchor (store.write_batch (insert column anchor tree b) s).0
          ≡ ok (some tree))
        × (contains store column anchor (store.write_batch (insert column anchor tree b) s).0
            ≡ ok true)
        × (get store column anchor (store.write_batch (remove column anchor b) s).0 ≡ ok none)
        × (contains store column anchor (store.write_batch (remove column anchor b) s).0 ≡ ok false)
        × ((other : List ℕ)
            → anchor ≢ other
            → (get store column other (store.write_batch (insert column anchor tree b) s).0
                ≡ get store column other (store.write_batch b s).0)
              × (get store column other (store.write_batch (remove column anchor b) s).0
                  ≡ get store column other (store.write_batch b s).0))
  unfolding get contains insert remove is_some
  get-insert-remove column anchor tree b s = (
    rw (get-put store laws b s column anchor tree anchor, assign_same),
    rw (get-put store laws b s column anchor tree anchor, assign_same),
    rw (get-delete store laws b s column anchor anchor, assign_same),
    rw (get-delete store laws b s column anchor anchor, assign_same),
    λ other apart. (
      rw (
        get-put store laws b s column anchor tree other,
        assign_apart column (some tree) _ apart,
        laws.get-view,
        laws.write_batch-view,
      ),
      rw (
        get-delete store laws b s column anchor other,
        assign_apart column none _ apart,
        laws.get-view,
        laws.write_batch-view,
      ),
    ),
  )
