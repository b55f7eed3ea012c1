-- ===== src/Tests/Orphans.antt =====
-- The orphans of mempool.rs at fixed times.
use fluxd_rust.Prelude.{ℕ, ◌≡◌, refl, List, [], ◌∷◌, Bool, false, arith}
use mathlib.Core.Path.{subst}
use fluxd_rust.Prelude.HashMap.{contains, without, find, erase, insert, Unique, sum_of}
use fluxd_rust.Primitives.OutPoint.{OutPoint}
use fluxd_rust.Storage.Memory.{same_bytes, bytes_lt}
use fluxd_rust.Node.Mempool.{Hash256, hash_key, link_parents}
use fluxd_rust.Node.Mempool.Orphans.{
  OrphanPool, no_orphans, remove_orphan_found, remove_orphan, retain_children, erase_all,
  stale_txids, remove_orphans, prune_orphans, make_orphan_room, add_orphan, insert_orphan,
  place_txid, orphan_parent_txids, store_with_parents, store_orphan, take_each, take_listed,
  take_orphans_for_parent,
}
use fluxd_rust.Node.Mempool.Orphans.Bounds.{Bounded}
use fluxd_rust.Node.Mempool.Orphans.Kept.{orphans-Bounded}

abbrev spends : ℕ → OutPoint
spends parent = record { hash = parent ∷ []; index = 0 }

abbrev waiting : OrphanPool
waiting = record {
  orphans =
      (
        (7 ∷ []),
        record {
          txid = 7 ∷ [];
          raw = 1 ∷ 2 ∷ [];
          received = 100;
          missing_parents = (5 ∷ []) ∷ [];
          limit_free = false;
        },
      )
      ∷ [];
  orphans_by_parent = ((5 ∷ []), (7 ∷ []) ∷ []) ∷ [];
  orphan_bytes = 2;
}

stored :
    store_orphan 100 100 no_orphans (7 ∷ []) (1 ∷ 2 ∷ []) (spends 5 ∷ spends 5 ∷ []) false ≡ waiting
unfolding store_orphan store_with_parents orphan_parent_txids place_txid same_bytes bytes_lt
    insert_orphan prune_orphans stale_txids remove_orphans find make_orphan_room add_orphan insert
    erase link_parents contains
stored = refl

-- Twenty minutes later the orphan is stale.
pruned : prune_orphans 1_300 waiting ≡ no_orphans
unfolding prune_orphans stale_txids remove_orphans remove_orphan remove_orphan_found find erase
    retain_children without insert erase_all same_bytes
pruned = refl

taken : (take_orphans_for_parent waiting (5 ∷ [])).0 ≡ no_orphans
unfolding take_orphans_for_parent take_listed take_each remove_orphan remove_orphan_found find erase
    retain_children without insert erase_all same_bytes
taken = refl

empty-Bounded : Bounded no_orphans
unfolding Unique sum_of find
empty-Bounded = record {
  counts = record { unique = tt; keyed = λ t o there. absurd cc; counted = refl };
  few = omega arith;
  small = omega arith;
}

waiting-Bounded : Bounded waiting
waiting-Bounded = subst Bounded stored (
    (orphans-Bounded no_orphans empty-Bounded).0 100 100 (7 ∷ []) (1 ∷ 2 ∷ [])
      (spends 5 ∷ spends 5 ∷ []) false)

orphans-Bounded_example :
    ((received now : ℕ) (txid : Hash256) (raw : List ℕ) (missing_inputs : List OutPoint)
        (limit_free : Bool)
      → Bounded (store_orphan received now waiting txid raw missing_inputs limit_free))
    × ((parent : Hash256) → Bounded (take_orphans_for_parent waiting parent).0)
orphans-Bounded_example = orphans-Bounded waiting waiting-Bounded
