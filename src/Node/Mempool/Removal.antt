-- ===== src/Node/Mempool/Removal.antt =====
-- mempool.rs: how transactions leave the pool.
use fluxd_rust.Prelude.{
  ℕ, zero, suc, ◌-◌, List, [], ◌∷◌, ◌++◌, length, Option, none, some, if◌then◌else◌,
}
use fluxd_rust.Prelude.HashMap.{contains, without, find, insert, erase}
use fluxd_rust.Node.Mempool.{
  Hash256, hash_key, key_of_outpoint, MempoolEntry, Mempool, size_of, u64_saturating_add, concat,
  release_all, unlink_parents,
}

-- The sets that `visit` passes along: what was visited, and the order of removal.
abbrev pub Visited : Type 0
Visited = List Hash256 × List Hash256

unfoldable pub visit_each : (Hash256 → Visited → Visited) → List Hash256 → Visited → Visited
visit_each one [] s = s
visit_each one (child ∷ rest) s = visit_each one rest (one child s)

-- `visit`, which is called below a transaction only when its own children are in the map.
unfoldable pub visit : ℕ → List (Hash256 × List Hash256) → Hash256 → Visited → Visited
visit zero children txid s = s
visit (suc fuel) children txid (visited, order) =
    let below : List Hash256 = elim (find children txid) [ none ↦ [] | some cs ↦ cs ] in
    let behind = visit_each (visit fuel children) below (txid ∷ visited, order) in
    if contains visited txid then (visited, order) else (behind.0, behind.1 ++ (txid ∷ []))

module _ {F : Type 0} where
  unfoldable pub orphan_one :
      Hash256
      → Hash256
      → List (Hash256 × MempoolEntry F)
      → Option (MempoolEntry F)
      → List (Hash256 × MempoolEntry F)
  orphan_one child txid entries none = entries
  orphan_one child txid entries (some e) =
      insert child (record e { parents = without txid e.parents }) entries

  -- `children.remove(txid)`, then `child_entry.parents.retain(..)` for each child in the pool.
  unfoldable pub orphan_children :
      List Hash256 → Hash256 → List (Hash256 × MempoolEntry F) → List (Hash256 × MempoolEntry F)
  orphan_children [] txid entries = entries
  orphan_children (child ∷ rest) txid entries =
      orphan_children rest txid (orphan_one child txid entries (find entries child))

  abbrev pub children_of : Mempool F → Hash256 → List Hash256
  children_of p txid = elim (find p.children txid) [ none ↦ [] | some cs ↦ cs ]

  -- `remove` behind its early return: `entry` is what `entries.remove(txid)` gave.
  unfoldable pub remove_entry : Mempool F → Hash256 → MempoolEntry F → Mempool F
  remove_entry p txid entry =
      let unlinked = unlink_parents entry.parents txid p.children in
      record {
        entries =
            orphan_children (elim (find unlinked txid) [ none ↦ [] | some cs ↦ cs ]) txid
              (erase txid p.entries);
        spent = release_all entry.spent_outpoints txid p.spent;
        sprout_nullifiers = release_all (concat entry.tx.join_splits) txid p.sprout_nullifiers;
        sapling_nullifiers = release_all entry.tx.shielded_spends txid p.sapling_nullifiers;
        children = erase txid unlinked;
        prioritisations = p.prioritisations;
        total_bytes = p.total_bytes - size_of entry;
        max_bytes = p.max_bytes;
        revision = u64_saturating_add p.revision 1;
      }

  unfoldable pub remove_found :
      Mempool F → Hash256 → Option (MempoolEntry F) → Mempool F × Option (MempoolEntry F)
  remove_found p txid none = (p, none)
  remove_found p txid (some entry) = (remove_entry p txid entry, some entry)

  unfoldable pub remove : Mempool F → Hash256 → Mempool F × Option (MempoolEntry F)
  remove p txid = remove_found p txid (find p.entries txid)

  unfoldable pub push_some : Option (MempoolEntry F) → List (MempoolEntry F) → List (MempoolEntry F)
  push_some none removed = removed
  push_some (some entry) removed = entry ∷ removed

  unfoldable pub remove_each : List Hash256 → Mempool F → Mempool F × List (MempoolEntry F)
  remove_each [] p = (p, [])
  remove_each (txid ∷ order) p =
      let one = remove p txid in
      let rest = remove_each order one.0 in (rest.0, push_some one.1 rest.1)

  -- A visit goes deeper only below another key of the map.
  unfoldable pub descendants : Mempool F → Hash256 → List Hash256
  descendants p txid = (visit (suc (length p.children)) p.children txid ([], [])).1

  unfoldable pub remove_with_descendants : Mempool F → Hash256 → Mempool F × List (MempoolEntry F)
  remove_with_descendants p txid = remove_each (descendants p txid) p
