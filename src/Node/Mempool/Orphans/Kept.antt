-- ===== src/Node/Mempool/Orphans/Kept.antt =====
-- mempool.rs: every operation on the orphans keeps their bounds.
use fluxd_rust.Prelude.{
  ℕ, ◌+◌, ◌-◌, ◌≤◌, ◌≡◌, refl, sym, ap, ◌∙◌, List, [], ◌∷◌, Bool, false, or-false, inl, inr, length,
  Option, none, some, if◌then◌else◌, ltb, leb, arith,
}
use fluxd_rust.Prelude.HashMap.{
  find, insert, erase, same_or, find-insert, find-insert_same, find-erase_same, Unique-insert,
  sum_of, erase_absent,
}
use fluxd_rust.Primitives.OutPoint.{OutPoint}
use fluxd_rust.Node.Mempool.{Hash256, hash_key, is_some, u64_saturating_add}
use fluxd_rust.Node.Mempool.Orphans.{
  OrphanTx, OrphanPool, default_max_orphans, default_max_orphan_bytes, default_orphan_ttl_secs,
  remove_orphan_found, remove_orphan, stale_txids, prune_orphans, is_full, make_orphan_room,
  add_orphan, insert_orphan, orphan_parent_txids, store_with_parents, store_orphan, take_listed,
  take_orphans_for_parent,
}
use fluxd_rust.Node.Mempool.Admission.{if_cases}
use fluxd_rust.Node.Mempool.Orphans.Bounds.{
  bytes_of, Counted, Bounded, Fewer, Fewer-refl, remove_orphan-Fewer, remove_orphans-Fewer,
  take_each-Fewer, make_orphan_room-Fewer,
}

no_orphan : (o : Option OrphanTx) → is_some o ≡ false → o ≡ none
no_orphan none h = refl
no_orphan (some o) h = absurd cc

remove_orphan_absent :
    (p : OrphanPool) (txid : Hash256) → find (remove_orphan p txid).0.orphans txid ≡ none
unfolding remove_orphan remove_orphan_found
remove_orphan_absent p txid = go (find p.orphans txid) refl
  where
    go :
        (o : Option OrphanTx)
        → find p.orphans txid ≡ o
        → find (remove_orphan_found p txid o).0.orphans txid ≡ none
    go none e = e
    go (some o) e = find-erase_same txid p.orphans

add_orphan-Bounded :
    (p : OrphanPool) (o : OrphanTx)
    → Counted p
    → find p.orphans o.txid ≡ none
    → is_full p (bytes_of o) ≡ false
    → Bounded (add_orphan p o)
unfolding add_orphan sum_of insert
add_orphan-Bounded p o c absent room =
    let both =
      or-false (leb default_max_orphans (length p.orphans))
        (ltb default_max_orphan_bytes (u64_saturating_add p.orphan_bytes (bytes_of o))) room in
    let rest = erase_absent o.txid p.orphans absent in
    let b0 = both.0 in
    let b1 = both.1 in
    let sums : sum_of bytes_of (erase o.txid p.orphans) ≡ sum_of bytes_of p.orphans =
      ap (sum_of bytes_of) rest in
    let count : length (erase o.txid p.orphans) ≡ length p.orphans = ap length rest in
    let fits : p.orphan_bytes + bytes_of o ≤ default_max_orphan_bytes = ground (arith, b1) in
    record {
      counts = record {
        unique = Unique-insert o.txid o p.orphans c.unique;
        keyed = λ t q there. elim (same_or t o.txid) [
          | inr apart ↦ c.keyed t q (sym (find-insert o.txid t o p.orphans apart) ∙ there)
          | inl same ↦
              let here : some o ≡ some q =
                sym (find-insert_same o.txid o p.orphans)
                ∙ ap (find (insert o.txid o p.orphans)) (sym same)
                ∙ there in
              let found : o ≡ q = cc in ap (λ (x : OrphanTx). x.txid) (sym found) ∙ sym same
        ];
        counted = omega (arith, fits, c.counted, sums);
      };
      few = ground (arith, b0, count);
      small = omega (arith, fits);
    }

-- Fewer orphans are within the same bounds.
Bounded-Fewer : (p q : OrphanPool) → Bounded p → Fewer p q → Bounded q
Bounded-Fewer p q b f = record {
  counts = f.counts;
  few = omega (arith, f.number, b.few);
  small = omega (arith, f.bytes, b.small);
}

prune_orphans-Fewer : (now : ℕ) (p : OrphanPool) → Counted p → Fewer p (prune_orphans now p)
unfolding prune_orphans
prune_orphans-Fewer now p c =
    remove_orphans-Fewer (stale_txids (now - default_orphan_ttl_secs) p.orphans) p c

insert_orphan-Bounded :
    (now : ℕ) (p : OrphanPool) (o : OrphanTx) → Bounded p → Bounded (insert_orphan now p o)
unfolding insert_orphan
insert_orphan-Bounded now p o b =
    let pruned = prune_orphans now p in
    let f = prune_orphans-Fewer now p b.counts in
    let again = is_some (find pruned.orphans o.txid) in
    let removed = (remove_orphan pruned o.txid).0 in
    let known = if again then removed else pruned in
    let k : Fewer pruned known × (find known.orphans o.txid ≡ none) =
      if_cases (λ (q : OrphanPool). Fewer pruned q × (find q.orphans o.txid ≡ none)) again removed
        pruned
        (λ there. (remove_orphan-Fewer pruned o.txid f.counts, remove_orphan_absent pruned o.txid))
        (λ not_there.
          (Fewer-refl pruned f.counts, no_orphan (find pruned.orphans o.txid) not_there)) in
    let room = make_orphan_room (length known.orphans) known (bytes_of o) in
    if_cases Bounded (ltb default_max_orphan_bytes (bytes_of o)) pruned (add_orphan room o)
      (λ large. Bounded-Fewer p pruned b f)
      (λ fits.
        let r =
          make_orphan_room-Fewer (length known.orphans) known (bytes_of o) k.0.counts (omega arith)
            (ground (arith, fits)) in
        add_orphan-Bounded room o r.0.counts (r.0.gone o.txid k.1) r.1)

store_with_parents-Bounded :
    (received now : ℕ) (p : OrphanPool) (txid : Hash256) (raw : List ℕ) (parents : List Hash256)
    (limit_free : Bool)
    → Bounded p
    → Bounded (store_with_parents received now p txid raw parents limit_free)
unfolding store_with_parents
store_with_parents-Bounded received now p txid raw [] limit_free b = b
store_with_parents-Bounded received now p txid raw (parent ∷ parents) limit_free b =
    insert_orphan-Bounded now p _ b

take_listed-Bounded :
    (p : OrphanPool) (parent : Hash256) (listed : Option (List Hash256))
    → Bounded p
    → Bounded (take_listed p parent listed).0
unfolding take_listed
take_listed-Bounded p parent none b = b
take_listed-Bounded p parent (some txids) b =
    let q : OrphanPool = record p { orphans_by_parent = erase parent p.orphans_by_parent } in
    let c : Counted q = record {
      unique = b.counts.unique;
      keyed = b.counts.keyed;
      counted = b.counts.counted;
    } in
    let f = take_each-Fewer txids q c in
    record {
      counts = f.counts;
      few = omega (arith, f.number, b.few);
      small = omega (arith, f.bytes, b.small);
    }

-- From orphans within these bounds, storing an orphan, whatever its size, and taking those of a parent
-- keep at most `DEFAULT_MAX_ORPHANS` orphans of at most `DEFAULT_MAX_ORPHAN_BYTES` bytes in all, with the
-- bytes counted.
pub orphans-Bounded :
    (p : OrphanPool)
    → Bounded p
    → ((received now : ℕ) (txid : Hash256) (raw : List ℕ) (missing_inputs : List OutPoint)
          (limit_free : Bool)
        → Bounded (store_orphan received now p txid raw missing_inputs limit_free))
      × ((parent : Hash256) → Bounded (take_orphans_for_parent p parent).0)
unfolding store_orphan take_orphans_for_parent
orphans-Bounded p b = (
  λ received now txid raw missing_inputs limit_free.
      store_with_parents-Bounded received now p txid raw (orphan_parent_txids missing_inputs)
        limit_free b,
  λ parent. take_listed-Bounded p parent (find p.orphans_by_parent parent) b,
)
