-- ===== src/Chainstate/UtxoSet.antt =====
-- `UtxoSet` of crates/chainstate/src/utxo.rs: the unspent outputs in a key-value store.
use fluxd_rust.Prelude.{ℕ, ◌≡◌, ◌≢◌, sym, ap, ◌∙◌, List, [], ◌∷◌, Option, none, some, take, drop}
use fluxd_rust.Prelude.Slices.{take-append, drop-append}
use fluxd_rust.Prelude.Result.{Result, ok, ◌>>=◌, map_err}
use fluxd_rust.Primitives.Bytes.{to_le_bytes, from_le_bytes, from_le_bytes-to_le_bytes}
use fluxd_rust.Primitives.Encoding.{display}
use fluxd_rust.Primitives.OutPoint.{OutPoint, IsOutPoint}
use fluxd_rust.Storage.Batch
use fluxd_rust.Storage.Batch.{
  StoreError, backend, Column, utxo, index, WriteBatch, put_op, delete_op, KeyValueStore,
}
use fluxd_rust.Storage.Memory.Lookup.{
  Map, assign, assign_all, assign_all-append, assign_same, assign_apart, StoreLaws,
}
use fluxd_rust.Chainstate.Utxo
use fluxd_rust.Chainstate.Utxo.{
  UtxoEntry, IsUtxoEntry, decode_utxo_entry, decode_utxo_entry-encode, outpoint_key,
}

module _ {S : Type 0} (store : KeyValueStore S) where
  entry_of : Option (List ℕ) → Result StoreError (Option UtxoEntry)
  entry_of none = ok none
  entry_of (some bytes) =
      map_err (λ e. backend (display e)) (decode_utxo_entry bytes) >>= λ entry. ok (some entry)

  unfoldable pub get : OutPoint → S → Result StoreError (Option UtxoEntry)
  unfolding entry_of
  get o s = store.get utxo (outpoint_key o) s >>= entry_of

unfoldable pub put : OutPoint → UtxoEntry → WriteBatch → WriteBatch
put o entry b = Batch.put utxo (outpoint_key o) (Utxo.encode entry) b

unfoldable pub delete : OutPoint → WriteBatch → WriteBatch
delete o b = Batch.delete utxo (outpoint_key o) b

hash_of : (o : OutPoint) → IsOutPoint o → take 32 (outpoint_key o) ≡ o.hash
unfolding outpoint_key
hash_of o h = take-append 32 o.hash (to_le_bytes 4 o.index) h.hash_size

index_of : (o : OutPoint) → IsOutPoint o → from_le_bytes (drop 32 (outpoint_key o)) ≡ o.index
unfolding outpoint_key
index_of o h =
    rw (drop-append 32 o.hash (to_le_bytes 4 o.index) h.hash_size)
      (from_le_bytes-to_le_bytes 4 o.index h.index_range)

-- Different outpoints have different keys.
outpoint_key-eq :
    (o p : OutPoint) → IsOutPoint o → IsOutPoint p → outpoint_key o ≡ outpoint_key p → o ≡ p
outpoint_key-eq o p ho hp e =
    let same_hash : o.hash ≡ p.hash = sym (hash_of o ho) ∙ ap (take 32) e ∙ hash_of p hp in
    let same_index : o.index ≡ p.index =
      sym (index_of o ho) ∙ ap (λ k. from_le_bytes (drop 32 k)) e ∙ index_of p hp in
    λ i. record { hash = same_hash i; index = same_index i }

module _ {S : Type 0} (store : KeyValueStore S) (laws : StoreLaws store) where
  get-view :
      (o : OutPoint) (b : WriteBatch) (s : S)
      → get store o (store.write_batch b s).0
        ≡ entry_of store (assign_all b.ops (laws.view s) utxo (outpoint_key o))
  unfolding get
  get-view o b s = rw (laws.get-view, laws.write_batch-view b s)

  view-put :
      (p o : OutPoint) (entry : UtxoEntry) (b : WriteBatch) (s : S)
      → get store p (store.write_batch (put o entry b) s).0
        ≡ entry_of store (
            assign utxo
              (outpoint_key o)
              (some (Utxo.encode entry))
              (assign_all b.ops (laws.view s))
              utxo
              (outpoint_key p))
  unfolding put Batch.put assign_all
  view-put p o entry b s =
      get-view p (put o entry b) s
      ∙ ap (λ (m : Map). entry_of store (m utxo (outpoint_key p)))
          (assign_all-append b.ops (put_op utxo (outpoint_key o) (Utxo.encode entry) ∷ [])
            (laws.view s))

  view-delete :
      (p o : OutPoint) (b : WriteBatch) (s : S)
      → get store p (store.write_batch (delete o b) s).0
        ≡ entry_of store (
            assign utxo
              (outpoint_key o)
              none
              (assign_all b.ops (laws.view s))
              utxo
              (outpoint_key p))
  unfolding delete Batch.delete assign_all
  view-delete p o b s =
      get-view p (delete o b) s
      ∙ ap (λ (m : Map). entry_of store (m utxo (outpoint_key p)))
          (assign_all-append b.ops (delete_op utxo (outpoint_key o) ∷ []) (laws.view s))

  entry_of-encode :
      (entry : UtxoEntry)
      → IsUtxoEntry entry
      → entry_of store (some (Utxo.encode entry)) ≡ ok (some entry)
  unfolding entry_of
  entry_of-encode entry h = rw (decode_utxo_entry-encode entry h)

  -- In a store that is a map: when a batch with a `put` of an output at its end is written, the
  -- output's entry is read back. When the batch ends with its `delete`, there is no entry. For any
  -- other output the last write changes nothing.
  pub get-put-delete :
      (o : OutPoint) (entry : UtxoEntry) (b : WriteBatch) (s : S)
      → IsOutPoint o
      → IsUtxoEntry entry
      → (get store o (store.write_batch (put o entry b) s).0 ≡ ok (some entry))
        × (get store o (store.write_batch (delete o b) s).0 ≡ ok none)
        × ((p : OutPoint)
            → IsOutPoint p
            → o ≢ p
            → (get store p (store.write_batch (put o entry b) s).0
                ≡ get store p (store.write_batch b s).0)
              × (get store p (store.write_batch (delete o b) s).0
                  ≡ get store p (store.write_batch b s).0))
  unfolding entry_of
  get-put-delete o entry b s ho h =
      let before = assign_all b.ops (laws.view s) in
      (
        view-put o o entry b s
            ∙ ap (entry_of store) (assign_same utxo (outpoint_key o) _ before)
            ∙ entry_of-encode entry h,
        view-delete o o b s ∙ ap (entry_of store) (assign_same utxo (outpoint_key o) none before),
        λ p hp other. (
          view-put p o entry b s
              ∙ ap (entry_of store)
                  (assign_apart utxo _ before (λ e. other (outpoint_key-eq o p ho hp e)))
              ∙ sym (get-view p b s),
          view-delete p o b s
              ∙ ap (entry_of store)
                  (assign_apart utxo none before (λ e. other (outpoint_key-eq o p ho hp e)))
              ∙ sym (get-view p b s),
        ),
      )
