-- ===== src/Node/Mempool/Orphans.antt =====
-- mempool.rs: the transactions that wait for a parent. Of `Mempool` the three fields that these
-- operations read and write; the clock is an argument.
pub mod Bounds
pub mod Kept
use fluxd_rust.Prelude.{
  ℕ, zero, suc, ◌+◌, ◌-◌, ◌*◌, List, [], ◌∷◌, ◌++◌, Bool, true, false, ◌||◌, length, Option, none,
  some, if◌then◌else◌, ltb, leb, replicate,
}
use fluxd_rust.Prelude.HashMap.{Key, contains, without, find, insert, erase}
use fluxd_rust.Primitives.OutPoint.{OutPoint}
use fluxd_rust.Storage.Memory.{same_bytes, bytes_lt}
use fluxd_rust.Node.Mempool.{Hash256, hash_key, u64_saturating_add, is_some, link_parents}

pub record OrphanTx : Type 0 where
  pub txid : Hash256
  pub raw : List ℕ
  pub received : ℕ
  pub missing_parents : List Hash256
  pub limit_free : Bool

pub record OrphanPool : Type 0 where
  pub orphans : List (Hash256 × OrphanTx)
  pub orphans_by_parent : List (Hash256 × List Hash256)
  pub orphan_bytes : ℕ

abbrev pub default_max_orphans : ℕ
default_max_orphans = 100

abbrev pub default_max_orphan_bytes : ℕ
default_max_orphan_bytes = 5 * 1024 * 1024

abbrev pub default_orphan_ttl_secs : ℕ
default_orphan_ttl_secs = 20 * 60

abbrev pub no_orphans : OrphanPool
no_orphans = record { orphans = []; orphans_by_parent = []; orphan_bytes = 0 }

-- The first loop of `remove_orphan`: the map, and the parents that are left without an orphan.
unfoldable pub retain_children :
    List Hash256
    → Hash256
    → List (Hash256 × List Hash256)
    → List (Hash256 × List Hash256) × List Hash256
retain_children [] txid by_parent = (by_parent, [])
retain_children (parent ∷ parents) txid by_parent = elim (find by_parent parent) [
  | none ↦ retain_children parents txid by_parent
  | some children ↦
      let left = without txid children in
      let rest = retain_children parents txid (insert parent left by_parent) in
      elim left [ [] ↦ (rest.0, parent ∷ rest.1) | (c ∷ cs) ↦ rest ]
]

unfoldable pub erase_all :
    List Hash256 → List (Hash256 × List Hash256) → List (Hash256 × List Hash256)
erase_all [] by_parent = by_parent
erase_all (parent ∷ parents) by_parent = erase_all parents (erase parent by_parent)

unfoldable pub remove_orphan_found :
    OrphanPool → Hash256 → Option OrphanTx → OrphanPool × Option OrphanTx
remove_orphan_found p txid none = (p, none)
remove_orphan_found p txid (some orphan) =
    let kept = retain_children orphan.missing_parents txid p.orphans_by_parent in
    (
      record {
        orphans = erase txid p.orphans;
        orphans_by_parent = erase_all kept.1 kept.0;
        orphan_bytes = p.orphan_bytes - length orphan.raw;
      },
      some orphan,
    )

unfoldable pub remove_orphan : OrphanPool → Hash256 → OrphanPool × Option OrphanTx
remove_orphan p txid = remove_orphan_found p txid (find p.orphans txid)

-- `min_by_key(|orphan| orphan.received)`, which keeps the first of equal ones.
unfoldable pub older : OrphanTx → Option OrphanTx → Option OrphanTx
older o none = some o
older o (some q) = if ltb q.received o.received then some q else some o

unfoldable pub oldest : List (Hash256 × OrphanTx) → Option OrphanTx
oldest [] = none
oldest ((k, o) ∷ orphans) = older o (oldest orphans)

unfoldable pub evict_found : OrphanPool → Option OrphanTx → OrphanPool × Bool
evict_found p none = (p, false)
evict_found p (some o) = ((remove_orphan p o.txid).0, true)

unfoldable pub evict_oldest_orphan : OrphanPool → OrphanPool × Bool
evict_oldest_orphan p = evict_found p (oldest p.orphans)

unfoldable pub stale_txids : ℕ → List (Hash256 × OrphanTx) → List Hash256
stale_txids cutoff [] = []
stale_txids cutoff ((txid, o) ∷ orphans) =
    let rest = stale_txids cutoff orphans in if leb o.received cutoff then txid ∷ rest else rest

unfoldable pub remove_orphans : List Hash256 → OrphanPool → OrphanPool
remove_orphans [] p = p
remove_orphans (txid ∷ txids) p = remove_orphans txids (remove_orphan p txid).0

unfoldable pub prune_orphans : ℕ → OrphanPool → OrphanPool
prune_orphans now p = remove_orphans (stale_txids (now - default_orphan_ttl_secs) p.orphans) p

-- The condition of the loop that makes room for `size` bytes.
abbrev pub is_full : OrphanPool → ℕ → Bool
is_full p size =
    leb default_max_orphans (length p.orphans)
    || ltb default_max_orphan_bytes (u64_saturating_add p.orphan_bytes size)

-- Each round takes an orphan away: as many rounds as there are orphans are enough.
unfoldable pub make_orphan_room : ℕ → OrphanPool → ℕ → OrphanPool
make_orphan_room zero p size = p
make_orphan_room (suc fuel) p size =
    let one = evict_oldest_orphan p in
    let rest = make_orphan_room fuel one.0 size in
    if is_full p size then (if one.1 then rest else one.0) else p

unfoldable pub add_orphan : OrphanPool → OrphanTx → OrphanPool
add_orphan p o = record {
  orphans = insert o.txid o p.orphans;
  orphans_by_parent = link_parents o.missing_parents o.txid p.orphans_by_parent;
  orphan_bytes = u64_saturating_add p.orphan_bytes (length o.raw);
}

-- The return for a limit of zero is left out, as neither constant is 0.
unfoldable pub insert_orphan : ℕ → OrphanPool → OrphanTx → OrphanPool
insert_orphan now p o =
    let pruned = prune_orphans now p in
    let known =
      if is_some (find pruned.orphans o.txid) then (remove_orphan pruned o.txid).0 else pruned in
    let room = make_orphan_room (length known.orphans) known (length o.raw) in
    if ltb default_max_orphan_bytes (length o.raw) then pruned else add_orphan room o

-- `out.sort()` on a set: the parents in order, each once.
unfoldable pub place_txid : Hash256 → List Hash256 → List Hash256
place_txid t [] = t ∷ []
place_txid t (x ∷ xs) =
    let rest = place_txid t xs in
    if same_bytes t x then x ∷ xs else if bytes_lt t x then t ∷ x ∷ xs else x ∷ rest

unfoldable pub orphan_parent_txids : List OutPoint → List Hash256
orphan_parent_txids [] = []
orphan_parent_txids (o ∷ missing_inputs) =
    let rest = orphan_parent_txids missing_inputs in
    if same_bytes o.hash (replicate 32 0) then rest else place_txid o.hash rest

unfoldable pub store_with_parents :
    ℕ → ℕ → OrphanPool → Hash256 → List ℕ → List Hash256 → Bool → OrphanPool
store_with_parents received now p txid raw [] limit_free = p
store_with_parents received now p txid raw (parent ∷ parents) limit_free =
    insert_orphan now p (record {
      txid = txid;
      raw = raw;
      received = received;
      missing_parents = parent ∷ parents;
      limit_free = limit_free;
    })

-- The clock is read for the orphan, and again by `prune_orphans`.
unfoldable pub store_orphan :
    ℕ → ℕ → OrphanPool → Hash256 → List ℕ → List OutPoint → Bool → OrphanPool
store_orphan received now p txid raw missing_inputs limit_free =
    store_with_parents received now p txid raw (orphan_parent_txids missing_inputs) limit_free

unfoldable pub push_orphan : Option OrphanTx → List OrphanTx → List OrphanTx
push_orphan none out = out
push_orphan (some o) out = o ∷ out

unfoldable pub take_each : List Hash256 → OrphanPool → OrphanPool × List OrphanTx
take_each [] p = (p, [])
take_each (txid ∷ txids) p =
    let one = remove_orphan p txid in
    let rest = take_each txids one.0 in (rest.0, push_orphan one.1 rest.1)

unfoldable pub take_listed :
    OrphanPool → Hash256 → Option (List Hash256) → OrphanPool × List OrphanTx
take_listed p parent none = (p, [])
take_listed p parent (some txids) =
    take_each txids (record p { orphans_by_parent = erase parent p.orphans_by_parent })

unfoldable pub take_orphans_for_parent : OrphanPool → Hash256 → OrphanPool × List OrphanTx
take_orphans_for_parent p parent = take_listed p parent (find p.orphans_by_parent parent)
