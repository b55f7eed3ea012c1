-- ===== src/Tests/Mempool.antt =====
-- The pool of mempool.rs on three small transactions, with numbers in place of `f64`.
use fluxd_rust.Prelude.{ℕ, ◌+◌, ◌≤◌, ◌<◌, ◌≡◌, refl, List, [], ◌∷◌, true, some, replicate, arith}
use fluxd_rust.Prelude.Int.{pos, ◌+ℤ◌, ◌*ℤ◌}
use fluxd_rust.Prelude.Result.{ok, err}
use fluxd_rust.Prelude.HashMap.{contains, find, erase, insert}
use fluxd_rust.Primitives.OutPoint.{OutPoint}
use fluxd_rust.Storage.Memory.{same_bytes, bytes_lt}
use fluxd_rust.Node.Mempool.{
  Hash256, hash_key, key_of_outpoint, MempoolEntry, Mempool, conflicting_input, concat, claim_all,
  release_all, is_claimed_by, has_conflict, link_parents, unlink_parents, new, spender,
}
use fluxd_rust.Node.Mempool.Removal.{
  visit, visit_each, descendants, orphan_one, orphan_children, remove_entry, remove_found, remove,
  push_some, remove_each, remove_with_descendants,
}
use fluxd_rust.Node.Mempool.Insertion.{
  comes_after, place, sort_candidates, candidate_of, sum_sizes, count_eviction, evict_loop,
  evict_to_fit, with_priority, add_entry, settle, insert_entry,
}
use fluxd_rust.Node.Mempool.Wellformed.{held_of, view, Wellformed}
use fluxd_rust.Node.Mempool.Eviction.{evict_to_fit_fits}
use fluxd_rust.Node.Mempool.Accepted.{insert_entry-ok}
use fluxd_rust.Node.Mempool.Depth.{descendants_enough}
use fluxd_rust.Node.Mempool.History.{Reachable, started, inserted, Reachable-Wellformed}

abbrev outpoint : ℕ → OutPoint
outpoint n = record { hash = n ∷ []; index = 0 }

abbrev entry : ℕ → ℕ → ℕ → List Hash256 → MempoolEntry ℕ
entry name coin fee parents = record {
  txid = name ∷ [];
  tx = record { join_splits = []; shielded_spends = [] };
  raw = replicate 6 0;
  time = 0;
  height = pos 100;
  fee = pos fee;
  value_in = pos 1_000;
  modified_size = 6;
  priority = 0;
  was_clear_at_entry = true;
  fee_delta = pos 0;
  priority_delta = 0;
  spent_outpoints = outpoint coin ∷ [];
  parents = parents;
}

abbrev add : ℕ → ℕ → ℕ
add a b = a + b

abbrev cheap : MempoolEntry ℕ
cheap = entry 1 50 10 []

abbrev dear : MempoolEntry ℕ
dear = entry 2 60 90 []

abbrev pool : Mempool ℕ
pool = (insert_entry add (new 10) cheap).0

double_spend : (insert_entry add pool (entry 3 50 99 [])).1 ≡ err conflicting_input
unfolding insert_entry with_priority find has_conflict add_entry settle insert erase claim_all
    concat link_parents evict_to_fit same_bytes
double_spend = refl

evicted_cheap :
    (insert_entry add pool dear).1
    ≡ ok (record { evicted = 1; evicted_bytes = 6; evicted_txids = (1 ∷ []) ∷ [] })
unfolding insert_entry with_priority find has_conflict add_entry settle insert erase claim_all
    concat link_parents evict_to_fit same_bytes evict_loop candidate_of sort_candidates place
    comes_after ◌*ℤ◌ ◌+ℤ◌ bytes_lt remove_with_descendants remove_each remove remove_found
    remove_entry descendants visit visit_each contains push_some count_eviction sum_sizes
    orphan_children orphan_one unlink_parents release_all is_claimed_by
evicted_cheap = refl

pool_reached : Reachable add 0 10 pool
pool_reached = inserted (new 10) cheap (omega arith) started

Reachable-Wellformed_example :
    Wellformed pool × (pool.max_bytes ≡ 10) × (0 < 10 → pool.total_bytes ≤ 10)
Reachable-Wellformed_example =
    Reachable-Wellformed add 0 10 pool (inserted (new 10) cheap (omega arith) started)

evict_to_fit_fits_example :
    Wellformed (evict_to_fit pool).0
    × ((evict_to_fit pool).0.total_bytes ≤ pool.max_bytes)
    × ((evict_to_fit pool).0.max_bytes ≡ pool.max_bytes)
evict_to_fit_fits_example =
    evict_to_fit_fits pool (Reachable-Wellformed add 0 10 pool pool_reached).0

insert_entry-ok_example :
    (view (insert_entry add pool dear).0.entries (2 ∷ []) ≡ some (held_of dear))
    × ((k : OutPoint)
        → contains (outpoint 60 ∷ []) k ≡ true
        → spender (insert_entry add pool dear).0 k ≡ some (2 ∷ []))
unfolding insert_entry with_priority find has_conflict add_entry settle insert erase claim_all
    concat link_parents same_bytes
insert_entry-ok_example =
    insert_entry-ok add pool dear
      (record { evicted = 1; evicted_bytes = 6; evicted_txids = (1 ∷ []) ∷ [] })
      (Reachable-Wellformed add 0 10 pool pool_reached).0 (omega arith) evicted_cheap

descendants_enough_example :
    (visit (2 + 5) ((1 ∷ [], []) ∷ []) (1 ∷ []) ([], [])).1
    ≡ descendants (record pool { children = (1 ∷ [], []) ∷ [] }) (1 ∷ [])
descendants_enough_example =
    descendants_enough (record pool { children = (1 ∷ [], []) ∷ [] }) (1 ∷ []) 5
