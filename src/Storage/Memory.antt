-- ===== src/Storage/Memory.antt =====
-- crates/storage/src/memory.rs: the store in memory. The `BTreeMap` is the list of its entries in
-- the order of their keys, a column and bytes; the lock makes each operation one step.
pub mod Lookup
use Prim.Native.Nat.{compare, Ordering}
use fluxd_rust.Prelude.{
  ℕ, List, [], ◌∷◌, ◌++◌, Bool, true, false, ◌&&◌, not, Option, none, some, ◌==◌, ltb,
  if◌then◌else◌,
}
use fluxd_rust.Prelude.Slices.{starts_with}
use fluxd_rust.Prelude.Result.{Result, ok, err}
use fluxd_rust.Storage.Batch.{
  StoreError, Column, index, WriteOp, put_op, delete_op, WriteBatch, KeyValueStore,
}

pub record Entry : Type 0 where
  pub column : Column
  pub key : List ℕ
  pub value : List ℕ

pub record MemoryStore : Type 0 where
  pub entries : List Entry

abbrev pub new_store : MemoryStore
new_store = record { entries = [] }

unfoldable pub same_bytes : List ℕ → List ℕ → Bool
same_bytes [] [] = true
same_bytes [] (y ∷ ys) = false
same_bytes (x ∷ xs) [] = false
same_bytes (x ∷ xs) (y ∷ ys) = x == y && same_bytes xs ys

unfoldable pub bytes_lt : List ℕ → List ℕ → Bool
bytes_lt xs [] = false
bytes_lt [] (y ∷ ys) = true
bytes_lt (x ∷ xs) (y ∷ ys) = let rest = bytes_lt xs ys in if x == y then rest else ltb x y

-- Columns are ordered as they are declared, and so are their indices.
unfoldable pub same_key : Column → List ℕ → Entry → Bool
same_key column key e = index column == index e.column && same_bytes key e.key

unfoldable pub key_lt : Column → List ℕ → Entry → Bool
key_lt column key e =
    if index column == index e.column
    then bytes_lt key e.key
    else ltb (index column) (index e.column)

-- `BTreeMap::get`, `insert` and `remove`
unfoldable pub find : Column → List ℕ → List Entry → Option (List ℕ)
find column key [] = none
find column key (e ∷ es) =
    let rest = find column key es in if same_key column key e then some e.value else rest

unfoldable pub insert : Entry → List Entry → List Entry
insert new [] = new ∷ []
insert new (e ∷ es) =
    let rest = insert new es in
    if same_key new.column new.key e
    then new ∷ es
    else if key_lt new.column new.key e
    then new ∷ e ∷ es
    else e ∷ rest

unfoldable pub remove : Column → List ℕ → List Entry → List Entry
remove column key [] = []
remove column key (e ∷ es) =
    let rest = remove column key es in if same_key column key e then rest else e ∷ rest

unfoldable pub matching : Column → List ℕ → List Entry → List (List ℕ × List ℕ)
matching column prefix [] = []
matching column prefix (e ∷ es) =
    let rest = matching column prefix es in
    if index e.column == index column && starts_with e.key prefix
    then (e.key, e.value) ∷ rest
    else rest

-- `for op in batch.iter()`
unfoldable pub apply : List WriteOp → List Entry → List Entry
apply [] es = es
apply (put_op column key value ∷ ops) es =
    apply ops (insert (record { column = column; key = key; value = value }) es)
apply (delete_op column key ∷ ops) es = apply ops (remove column key es)

-- The visitor of `for_each_prefix` is a step on a state of the caller's.
unfoldable pub visit :
    {A : Type 0}
    → (A → List ℕ → List ℕ → Result StoreError A)
    → A
    → List (List ℕ × List ℕ)
    → Result StoreError A
visit step a [] = ok a
visit step a ((key, value) ∷ rest) = elim (step a key value) [
  | ok a' ↦ visit step a' rest
  | err e ↦ err e
]

unfoldable pub for_each_prefix :
    {A : Type 0}
    → Column
    → List ℕ
    → (A → List ℕ → List ℕ → Result StoreError A)
    → A
    → MemoryStore
    → Result StoreError A
for_each_prefix column prefix step a s = visit step a (matching column prefix s.entries)

unfoldable pub memory_store : KeyValueStore MemoryStore
memory_store = record {
  get = λ column key s. ok (find column key s.entries);
  put = λ column key value s. (
    record { entries = insert (record { column = column; key = key; value = value }) s.entries },
    ok tt,
  );
  delete = λ column key s. (record { entries = remove column key s.entries }, ok tt);
  scan_prefix = λ column prefix s. ok (matching column prefix s.entries);
  write_batch = λ batch s. (record { entries = apply batch.ops s.entries }, ok tt);
}
