-- ===== src/Node/Mempool/Insertion.antt =====
-- mempool.rs: insertion, with its checks and the evictions that make room.
use fluxd_rust.Prelude.{
  ℕ, ◌+◌, List, [], ◌∷◌, ◌++◌, map, Bool, ◌&&◌, not, length, Option, none, some, if◌then◌else◌,
  ◌==◌, ltb, leb,
}
use Prim.Native.Nat.{max}
use fluxd_rust.Prelude.Int.{ℤ, pos, ◌*ℤ◌, ltb_ℤ, eq_ℤ}
use fluxd_rust.Prelude.Result.{Result, ok, err}
use fluxd_rust.Prelude.HashMap.{find, insert}
use fluxd_rust.Storage.Memory.{bytes_lt}
use fluxd_rust.Node.Mempool.{
  Hash256, hash_key, key_of_outpoint, MempoolErrorKind, already_in_mempool, conflicting_input,
  mempool_full, MempoolEntry, Prioritisation, Mempool, MempoolInsertOutcome, EvictCandidate,
  size_of, modified_fee, i64_saturating_add, u64_saturating_add, concat, is_some, claim_all,
  has_conflict, link_parents,
}
use fluxd_rust.Node.Mempool.Removal.{remove_with_descendants}

-- The comparison of `candidates.sort_by` says Greater: a fee rate, by products that an i128 holds, then the
-- time, then the txid.
unfoldable pub comes_after : EvictCandidate → EvictCandidate → Bool
unfolding ◌*ℤ◌
comes_after a b =
    let left = a.fee *ℤ pos b.size in
    let right = b.fee *ℤ pos a.size in
    if eq_ℤ left right
    then (if a.time == b.time then bytes_lt b.txid a.txid else ltb b.time a.time)
    else ltb_ℤ right left

unfoldable pub place : EvictCandidate → List EvictCandidate → List EvictCandidate
place c [] = c ∷ []
place c (x ∷ xs) = let rest = place c xs in if comes_after c x then x ∷ rest else c ∷ x ∷ xs

unfoldable pub sort_candidates : List EvictCandidate → List EvictCandidate
sort_candidates [] = []
sort_candidates (c ∷ cs) = place c (sort_candidates cs)

abbrev pub no_eviction : MempoolInsertOutcome
no_eviction = record { evicted = 0; evicted_bytes = 0; evicted_txids = [] }

module _ {F : Type 0} where
  unfoldable pub candidate_of : Hash256 × MempoolEntry F → EvictCandidate
  candidate_of (key, e) = record {
    txid = e.txid;
    fee = modified_fee e;
    size = max (size_of e) 1;
    time = e.time;
  }

  unfoldable pub sum_sizes : List (MempoolEntry F) → ℕ
  sum_sizes [] = 0
  sum_sizes (e ∷ es) = size_of e + sum_sizes es

  -- `if removed.is_empty() { continue; }`
  unfoldable pub count_eviction :
      List (MempoolEntry F) → MempoolInsertOutcome → MempoolInsertOutcome
  count_eviction [] o = o
  count_eviction (e ∷ removed) o = record {
    evicted = u64_saturating_add o.evicted (length (e ∷ removed));
    evicted_bytes = u64_saturating_add o.evicted_bytes (sum_sizes (e ∷ removed));
    evicted_txids = o.evicted_txids ++ map (λ r. r.txid) (e ∷ removed);
  }

  -- `for candidate in candidates`, which stops as soon as the rest fits.
  unfoldable pub evict_loop :
      List EvictCandidate → Mempool F → MempoolInsertOutcome → Mempool F × MempoolInsertOutcome
  evict_loop [] p outcome = (p, outcome)
  evict_loop (c ∷ candidates) p outcome =
      let removal = remove_with_descendants p c.txid in
      let rest = evict_loop candidates removal.0 (count_eviction removal.1 outcome) in
      if leb p.total_bytes p.max_bytes then (p, outcome) else rest

  unfoldable pub evict_to_fit : Mempool F → Mempool F × MempoolInsertOutcome
  evict_to_fit p = evict_loop (sort_candidates (map candidate_of p.entries)) p no_eviction

  -- The pool with the entry, when none of the checks refused it.
  unfoldable pub add_entry : Mempool F → MempoolEntry F → Mempool F
  add_entry p e = record p {
    entries = insert e.txid e p.entries;
    spent = claim_all e.spent_outpoints e.txid p.spent;
    sprout_nullifiers = claim_all (concat e.tx.join_splits) e.txid p.sprout_nullifiers;
    sapling_nullifiers = claim_all e.tx.shielded_spends e.txid p.sapling_nullifiers;
    children = link_parents e.parents e.txid p.children;
    total_bytes = u64_saturating_add p.total_bytes (size_of e);
    revision = u64_saturating_add p.revision 1;
  }

  abbrev pub make_room : Mempool F → Mempool F × MempoolInsertOutcome
  make_room p =
      if ltb 0 p.max_bytes && ltb p.max_bytes p.total_bytes
      then evict_to_fit p
      else (p, no_eviction)

  -- The last check runs on the pool behind the evictions, which it leaves as it is.
  unfoldable pub settle :
      Hash256
      → Mempool F × MempoolInsertOutcome
      → Mempool F × Result MempoolErrorKind MempoolInsertOutcome
  settle txid (p, outcome) =
      if ltb 0 p.max_bytes && not (is_some (find p.entries txid))
      then (p, err mempool_full)
      else (p, ok outcome)

  module _ (add : F → F → F) where
    unfoldable pub with_priority : Option (Prioritisation F) → MempoolEntry F → MempoolEntry F
    with_priority none e = e
    with_priority (some given) e = record e {
      priority_delta = add e.priority_delta given.priority_delta;
      fee_delta = i64_saturating_add e.fee_delta given.fee_delta;
    }

    abbrev pub prioritised : Mempool F → MempoolEntry F → MempoolEntry F
    prioritised p e = with_priority (find p.prioritisations e.txid) e

    unfoldable pub insert_entry :
        Mempool F → MempoolEntry F → Mempool F × Result MempoolErrorKind MempoolInsertOutcome
    insert_entry p entry =
        let e = prioritised p entry in
        if ltb 0 p.max_bytes && ltb p.max_bytes (size_of e)
        then (p, err mempool_full)
        else if is_some (find p.entries e.txid)
        then (p, err already_in_mempool)
        else if has_conflict e.spent_outpoints p.spent
        then (p, err conflicting_input)
        else if has_conflict (concat e.tx.join_splits) p.sprout_nullifiers
        then (p, err conflicting_input)
        else if has_conflict e.tx.shielded_spends p.sapling_nullifiers
        then (p, err conflicting_input)
        else settle e.txid (make_room (add_entry p e))

    unfoldable pub reprioritise :
        Hash256
        → F
        → ℤ
        → Option (MempoolEntry F)
        → List (Hash256 × MempoolEntry F)
        → List (Hash256 × MempoolEntry F)
    reprioritise txid priority_delta fee_delta none entries = entries
    reprioritise txid priority_delta fee_delta (some e) entries =
        insert txid
          (record e {
            priority_delta = add e.priority_delta priority_delta;
            fee_delta = i64_saturating_add e.fee_delta fee_delta;
          })
          entries

    unfoldable pub prioritise_transaction : Mempool F → Hash256 → F → ℤ → F → Mempool F
    prioritise_transaction p txid priority_delta fee_delta zero_f =
        let old : Prioritisation F = elim (find p.prioritisations txid) [
          | none ↦ record { priority_delta = zero_f; fee_delta = pos 0 }
          | some given ↦ given
        ] in
        record p {
          prioritisations =
              insert txid
                (record {
                  priority_delta = add old.priority_delta priority_delta;
                  fee_delta = i64_saturating_add old.fee_delta fee_delta;
                })
                p.prioritisations;
          entries = reprioritise txid priority_delta fee_delta (find p.entries txid) p.entries;
          revision = u64_saturating_add p.revision 1;
        }
