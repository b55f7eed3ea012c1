-- ===== src/Storage/Memory/Lookup.antt =====
-- The store of memory.rs as a map from columns and keys to values.
use fluxd_rust.Prelude.{
  ℕ, ◌≡◌, ◌≢◌, ◌↔◌, refl, sym, ap, ◌∙◌, List, [], ◌∷◌, ◌++◌, Bool, true, false, ◌&&◌, Bool-cases,
  inl, inr, Option, none, some, get_or, ◌==◌, if◌then◌else◌, arith,
}
use fluxd_rust.Prelude.Result.{ok}
use fluxd_rust.Storage.Batch.{
  Column, block_index, all_columns, bit, trailing_zeros, index, WriteOp, put_op, delete_op,
  WriteBatch, put, delete, KeyValueStore,
}
use fluxd_rust.Storage.Memory.{
  Entry, MemoryStore, same_bytes, same_key, key_lt, find, insert, remove, apply, memory_store,
}

-- The index of a column is its place among all columns.
pub get_or-index : (column : Column) → get_or all_columns (index column) block_index ≡ column
unfolding index bit trailing_zeros
get_or-index block_index = refl
get_or-index _ = refl

pub same_bytes-eq : (xs ys : List ℕ) → same_bytes xs ys ≡ true → xs ≡ ys
unfolding same_bytes
same_bytes-eq [] [] h = refl
same_bytes-eq [] (y ∷ ys) h = cc
same_bytes-eq (x ∷ xs) [] h = cc
same_bytes-eq (x ∷ xs) (y ∷ ys) h = ground (arith, same_bytes-eq xs ys)

pub same_bytes_refl : (xs : List ℕ) → same_bytes xs xs ≡ true
unfolding same_bytes
same_bytes_refl [] = refl
same_bytes_refl (x ∷ xs) = ground (arith, same_bytes_refl xs)

-- The test on keys decides equality of the column and of the bytes.
pub same_key_iff :
    (column : Column) (key : List ℕ) (e : Entry)
    → (same_key column key e ≡ true) ↔ ((column ≡ e.column) × (key ≡ e.key))
unfolding same_key
same_key_iff column key e = (sound, λ h. rw (h.0, h.1) (ground (arith, same_bytes_refl e.key)))
  where
    sound :
        (index column == index e.column && same_bytes key e.key) ≡ true
        → (column ≡ e.column) × (key ≡ e.key)
    sound h =
        let same : index column ≡ index e.column = ground arith in
        let bytes : same_bytes key e.key ≡ true = ground arith in
        (
          sym (get_or-index column)
              ∙ ap (λ i. get_or all_columns i block_index) same
              ∙ get_or-index e.column,
          same_bytes-eq key e.key bytes,
        )

-- Equal keys agree in every test.
same_key-same :
    (column : Column) (key : List ℕ) (a e : Entry)
    → same_key column key a ≡ true
    → same_key column key e ≡ same_key a.column a.key e
same_key-same column key a e h = let (c, k) = (same_key_iff column key a).0 h in rw (c, k)

key_of :
    (column : Column) (key : List ℕ) (a e : Entry)
    → same_key a.column a.key e ≡ true
    → same_key column key a ≡ same_key column key e
unfolding same_key
key_of column key a e h = let (c, k) = (same_key_iff a.column a.key e).0 h in rw (c, k)

find-insert :
    (column : Column) (key : List ℕ) (new : Entry) (es : List Entry)
    → find column key (insert new es)
      ≡ (if same_key column key new then some new.value else find column key es)
unfolding find insert
find-insert column key new [] = refl
find-insert column key new (e ∷ es) = elim (Bool-cases (same_key new.column new.key e)) [
  | inl same ↦ rw (same, ← key_of column key new e same) (twice (same_key column key new))
  | inr other ↦ elim (Bool-cases (key_lt new.column new.key e)) [
    | inl front ↦ rw (other, front)
    | inr behind ↦ ground (arith, same_key-same column key new e, find-insert column key new es)
  ]
]
  where
    twice :
        (b : Bool)
        → (if b then some new.value else find column key es)
          ≡ (if b then some new.value else if b then some e.value else find column key es)
    twice true = refl
    twice false = refl

find-remove :
    (column : Column) (key : List ℕ) (gone : Entry) (es : List Entry)
    → find column key (remove gone.column gone.key es)
      ≡ (if same_key column key gone then none else find column key es)
unfolding find remove
find-remove column key gone [] = ground arith
find-remove column key gone (e ∷ es) = elim (Bool-cases (same_key gone.column gone.key e)) [
  | inl same ↦ ground (arith, key_of column key gone e same, find-remove column key gone es)
  | inr other ↦ ground (arith, same_key-same column key gone e, find-remove column key gone es)
]

-- The view of a store: each column's keys with their values.
abbrev pub Map : Type 0
Map = Column → List ℕ → Option (List ℕ)

abbrev pub lookup : List Entry → Map
lookup es column key = find column key es

unfoldable pub assign : Column → List ℕ → Option (List ℕ) → Map → Map
assign column key value m column' key' =
    if index column' == index column && same_bytes key' key then value else m column' key'

-- The writes of a batch, one after the other.
unfoldable pub assign_all : List WriteOp → Map → Map
assign_all [] m = m
assign_all (put_op column key value ∷ ops) m = assign_all ops (assign column key (some value) m)
assign_all (delete_op column key ∷ ops) m = assign_all ops (assign column key none m)

lookup-insert :
    (new : Entry) (es : List Entry)
    → lookup (insert new es) ≡ assign new.column new.key (some new.value) (lookup es)
unfolding assign same_key
lookup-insert new es i column key = find-insert column key new es i

lookup-remove :
    (gone : Entry) (es : List Entry)
    → lookup (remove gone.column gone.key es) ≡ assign gone.column gone.key none (lookup es)
unfolding assign same_key
lookup-remove gone es i column key = find-remove column key gone es i

lookup-apply :
    (ops : List WriteOp) (es : List Entry) → lookup (apply ops es) ≡ assign_all ops (lookup es)
unfolding apply assign_all
lookup-apply [] es = refl
lookup-apply (put_op column key value ∷ ops) es =
    let new : Entry = record { column = column; key = key; value = value } in
    lookup-apply ops (insert new es) ∙ ap (assign_all ops) (lookup-insert new es)
lookup-apply (delete_op column key ∷ ops) es =
    let gone : Entry = record { column = column; key = key; value = [] } in
    lookup-apply ops (remove column key es) ∙ ap (assign_all ops) (lookup-remove gone es)

-- After a batch the store answers every `get` as the map does to which the batch's writes were
-- applied in their order.
pub get-write_batch :
    (batch : WriteBatch) (s : MemoryStore) (column : Column) (key : List ℕ)
    → memory_store.get column key (memory_store.write_batch batch s).0
      ≡ ok (assign_all batch.ops (lookup s.entries) column key)
unfolding memory_store
get-write_batch batch s column key =
    ap (λ (m : Map). ok (m column key)) (lookup-apply batch.ops s.entries)

pub assign_all-append :
    (xs ys : List WriteOp) (m : Map) → assign_all (xs ++ ys) m ≡ assign_all ys (assign_all xs m)
unfolding assign_all
assign_all-append [] ys m = refl
assign_all-append (put_op column key value ∷ xs) ys m =
    assign_all-append xs ys (assign column key (some value) m)
assign_all-append (delete_op column key ∷ xs) ys m =
    assign_all-append xs ys (assign column key none m)

pub assign_same :
    (column : Column) (key : List ℕ) (value : Option (List ℕ)) (m : Map)
    → assign column key value m column key ≡ value
unfolding assign same_key
assign_same column key value m =
    let e : Entry = record { column = column; key = key; value = [] } in
    let same : same_key column key e ≡ true = (same_key_iff column key e).1 (refl, refl) in rw same

pub assign_apart :
    (column : Column) {key other : List ℕ} (value : Option (List ℕ)) (m : Map)
    → key ≢ other
    → assign column key value m column other ≡ m column other
unfolding assign same_key
assign_apart column {key} {other} value m apart =
    let e : Entry = record { column = column; key = key; value = [] } in
    elim (Bool-cases (same_key column other e)) [
      | inl same ↦ absurd (apart (sym ((same_key_iff column other e).0 same).1))
      | inr different ↦ rw different
    ]

-- What the users of a store rely on: it is a map, which a batch changes as a whole.
pub record StoreLaws {S : Type 0} (store : KeyValueStore S) : Type 0 where
  pub view : S → Map
  pub get-view :
      (column : Column) (key : List ℕ) (s : S) → store.get column key s ≡ ok (view s column key)
  pub write_batch-view :
      (batch : WriteBatch) (s : S)
      → view (store.write_batch batch s).0 ≡ assign_all batch.ops (view s)

pub memory_store-StoreLaws : StoreLaws memory_store
unfolding memory_store
memory_store-StoreLaws = record {
  view = λ s. lookup s.entries;
  get-view = λ column key s. refl;
  write_batch-view = λ batch s. lookup-apply batch.ops s.entries;
}

-- A `get` behind a batch that ends with one more write.
module _ {S : Type 0} (store : KeyValueStore S) (laws : StoreLaws store) (b : WriteBatch)
    (s : S) where
  pub get-put :
      (column : Column) (key value : List ℕ) (other : List ℕ)
      → store.get column other (store.write_batch (put column key value b) s).0
        ≡ ok (assign column key (some value) (assign_all b.ops (laws.view s)) column other)
  unfolding put assign_all
  get-put column key value other = rw (laws.get-view, laws.write_batch-view, assign_all-append)

  pub get-delete :
      (column : Column) (key other : List ℕ)
      → store.get column other (store.write_batch (delete column key b) s).0
        ≡ ok (assign column key none (assign_all b.ops (laws.view s)) column other)
  unfolding delete assign_all
  get-delete column key other = rw (laws.get-view, laws.write_batch-view, assign_all-append)
