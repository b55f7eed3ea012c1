-- ===== src/Node/Mempool/Wellformed.antt =====
-- What holds of the pool of mempool.rs between two operations, and its removals.
use fluxd_rust.Prelude.{
  ℕ, ◌≤◌, ◌≡◌, refl, sym, ap, ◌∙◌, List, [], ◌∷◌, false, inl, inr, Option, none, some, arith,
}
use fluxd_rust.Prelude.HashMap.{
  contains, find, insert, erase, same_apart, same_or, find-insert, find-insert_same, find-erase,
  find-erase_same, Unique, Unique-erase, Unique-insert, sum_of, sum_of-erase, sum_of-insert,
}
use fluxd_rust.Primitives.OutPoint.{OutPoint}
use fluxd_rust.Node.Mempool.{
  Hash256, hash_key, key_of_outpoint, Nullifiers, MempoolEntry, Mempool, size_of, concat,
  unlink_parents,
}
use fluxd_rust.Node.Mempool.Removal.{
  orphan_one, orphan_children, remove_entry, remove_found, remove, remove_each,
}
use fluxd_rust.Node.Mempool.Indexed.{
  with_entry, with_same, with_apart, with_known, with_none, Indexed, Indexed-release_all,
}

-- What the indexes and the sizes depend on.
pub record Held : Type 0 where
  pub txid : Hash256
  pub tx : Nullifiers
  pub size : ℕ
  pub spent_outpoints : List OutPoint

module _ {F : Type 0} where
  abbrev pub held_of : MempoolEntry F → Held
  held_of e = record {
    txid = e.txid;
    tx = e.tx;
    size = size_of e;
    spent_outpoints = e.spent_outpoints;
  }

  abbrev pub held_option : Option (MempoolEntry F) → Option Held
  held_option none = none
  held_option (some e) = some (held_of e)

  abbrev pub view : List (Hash256 × MempoolEntry F) → Hash256 → Option Held
  view entries t = held_option (find entries t)

  view-erase :
      (txid : Hash256) (m : List (Hash256 × MempoolEntry F))
      → view (erase txid m) ≡ with_entry txid none (view m)
  view-erase txid m i t =
      elim (same_or t txid) as (λ x. view (erase txid m) t ≡ with_entry txid none (view m) t) [
        | inl same ↦ rw (same, find-erase_same txid m) (sym (with_same txid none (view m)))
        | inr apart ↦ rw (find-erase txid t m apart) (sym (with_apart txid t none (view m) apart))
      ]
        i

  pub view-insert :
      (txid : Hash256) (e : MempoolEntry F) (m : List (Hash256 × MempoolEntry F))
      → view (insert txid e m) ≡ with_entry txid (some (held_of e)) (view m)
  view-insert txid e m i t =
      elim (same_or t txid)
          as (λ x. view (insert txid e m) t ≡ with_entry txid (some (held_of e)) (view m) t) [
            | inl same ↦
                rw (same, find-insert_same txid e m)
                  (sym (with_same txid (some (held_of e)) (view m)))
            | inr apart ↦
                rw (find-insert txid t e m apart)
                  (sym (with_apart txid t (some (held_of e)) (view m) apart))
          ]
        i

  -- A transaction that is changed where the view does not look.
  pub record Unchanged (m m' : List (Hash256 × MempoolEntry F)) : Type 0 where
    pub unique : Unique m'
    pub views : view m' ≡ view m
    pub sums : sum_of size_of m' ≡ sum_of size_of m

  pub insert-Unchanged :
      (m : List (Hash256 × MempoolEntry F)) (t : Hash256) (e e' : MempoolEntry F)
      → Unique m
      → find m t ≡ some e
      → held_of e' ≡ held_of e
      → Unchanged m (insert t e' m)
  insert-Unchanged m t e e' u here same = record {
    unique = Unique-insert t e' m u;
    views =
        view-insert t e' m
        ∙ with_known t (some (held_of e')) (view m)
            (ap held_option here ∙ ap (λ h. some h) (sym same));
    sums = sum_of-insert size_of t e e' m u here (ap (λ (h : Held). h.size) same);
  }

  Unchanged-refl : (m : List (Hash256 × MempoolEntry F)) → Unique m → Unchanged m m
  Unchanged-refl m u = record { unique = u; views = refl; sums = refl }

  Unchanged-trans :
      (a b c : List (Hash256 × MempoolEntry F)) → Unchanged a b → Unchanged b c → Unchanged a c
  Unchanged-trans a b c ab bc = record {
    unique = bc.unique;
    views = bc.views ∙ ab.views;
    sums = bc.sums ∙ ab.sums;
  }

  orphan_one-Unchanged :
      (child txid : Hash256) (m : List (Hash256 × MempoolEntry F)) (o : Option (MempoolEntry F))
      → find m child ≡ o
      → Unique m
      → Unchanged m (orphan_one child txid m o)
  unfolding orphan_one
  orphan_one-Unchanged child txid m none here u = Unchanged-refl m u
  orphan_one-Unchanged child txid m (some e) here u =
      insert-Unchanged m child e (record e { parents = _ }) u here refl

  orphan_children-Unchanged :
      (cs : List Hash256) (txid : Hash256) (m : List (Hash256 × MempoolEntry F))
      → Unique m
      → Unchanged m (orphan_children cs txid m)
  unfolding orphan_children
  orphan_children-Unchanged [] txid m u = Unchanged-refl m u
  orphan_children-Unchanged (child ∷ cs) txid m u =
      let one = orphan_one-Unchanged child txid m (find m child) refl u in
      let m' = orphan_one child txid m (find m child) in
      Unchanged-trans m m' (orphan_children cs txid m') one
        (orphan_children-Unchanged cs txid m' one.unique)

  -- The entries stand under their txids, the bytes are counted, and every table agrees with the entries:
  -- no outpoint and no nullifier is spent twice.
  pub record Wellformed (p : Mempool F) : Type 0 where
    pub unique : Unique p.entries
    pub keyed : (t : Hash256) (h : Held) → view p.entries t ≡ some h → h.txid ≡ t
    pub counted : p.total_bytes ≡ sum_of size_of p.entries
    pub outpoints : Indexed (λ (h : Held). h.spent_outpoints) (view p.entries) p.spent
    pub sprouts :
        Indexed (λ (h : Held). concat h.tx.join_splits) (view p.entries) p.sprout_nullifiers
    pub saplings :
        Indexed (λ (h : Held). h.tx.shielded_spends) (view p.entries) p.sapling_nullifiers

  pub view-remove_entry :
      (p : Mempool F) (txid : Hash256) (e : MempoolEntry F)
      → Unique p.entries
      → view (remove_entry p txid e).entries ≡ with_entry txid none (view p.entries)
  unfolding remove_entry
  view-remove_entry p txid e u =
      let unlinked = unlink_parents e.parents txid p.children in
      let cs : List Hash256 = elim (find unlinked txid) [ none ↦ [] | some cs ↦ cs ] in
      let same =
        orphan_children-Unchanged cs txid (erase txid p.entries) (Unique-erase txid p.entries u) in
      same.views ∙ view-erase txid p.entries

  remove_entry-Wellformed :
      (p : Mempool F) (txid : Hash256) (e : MempoolEntry F)
      → find p.entries txid ≡ some e
      → Wellformed p
      → Wellformed (remove_entry p txid e)
  unfolding remove_entry
  remove_entry-Wellformed p txid e here w =
      let rest = erase txid p.entries in
      let u = Unique-erase txid p.entries w.unique in
      let unlinked = unlink_parents e.parents txid p.children in
      let cs : List Hash256 = elim (find unlinked txid) [ none ↦ [] | some cs ↦ cs ] in
      let same = orphan_children-Unchanged cs txid rest u in
      let look = view p.entries in
      let view_here : look txid ≡ some (held_of e) = ap held_option here in
      let views : view (orphan_children cs txid rest) ≡ with_entry txid none look =
        view-remove_entry p txid e w.unique in
      record {
        unique = same.unique;
        keyed = λ t h there.
            w.keyed t h (with_none txid t look h (sym (ap (λ seen. seen t) views) ∙ there)).1;
        counted =
            omega
              (arith, w.counted, same.sums, sum_of-erase size_of txid e p.entries w.unique here);
        outpoints = rw views (
            Indexed-release_all (λ (h : Held). h.spent_outpoints) look p.spent txid (held_of e)
              view_here w.outpoints);
        sprouts = rw views (
            Indexed-release_all (λ (h : Held). concat h.tx.join_splits) look p.sprout_nullifiers
              txid (held_of e) view_here w.sprouts);
        saplings = rw views (
            Indexed-release_all (λ (h : Held). h.tx.shielded_spends) look p.sapling_nullifiers txid
              (held_of e) view_here w.saplings);
      }

  -- What a removal of any transaction, in the pool or not, leaves.
  remove_found_lem :
      (p : Mempool F) (txid : Hash256) (o : Option (MempoolEntry F))
      → find p.entries txid ≡ o
      → Wellformed p
      → Wellformed (remove_found p txid o).0
        × (view (remove_found p txid o).0.entries ≡ with_entry txid none (view p.entries))
        × ((remove_found p txid o).0.max_bytes ≡ p.max_bytes)
  unfolding remove_found remove_entry
  remove_found_lem p txid none here w =
      (w, sym (with_known txid none (view p.entries) (ap held_option here)), refl)
  remove_found_lem p txid (some e) here w =
      (remove_entry-Wellformed p txid e here w, view-remove_entry p txid e w.unique, refl)

  pub remove_lem :
      (p : Mempool F) (txid : Hash256)
      → Wellformed p
      → Wellformed (remove p txid).0
        × (view (remove p txid).0.entries ≡ with_entry txid none (view p.entries))
        × ((remove p txid).0.max_bytes ≡ p.max_bytes)
  unfolding remove
  remove_lem p txid w = remove_found_lem p txid (find p.entries txid) refl w

  pub remove_each-Wellformed :
      (order : List Hash256) (p : Mempool F)
      → Wellformed p
      → Wellformed (remove_each order p).0 × ((remove_each order p).0.max_bytes ≡ p.max_bytes)
  unfolding remove_each
  remove_each-Wellformed [] p w = (w, refl)
  remove_each-Wellformed (txid ∷ order) p w =
      let one = remove_lem p txid w in
      let rest = remove_each-Wellformed order (remove p txid).0 one.0 in (rest.0, rest.1 ∙ one.2)

  -- What is not among the removed ones only, and what is left was there before.
  pub remove_each_left :
      (order : List Hash256) (p : Mempool F) (t : Hash256) (h : Held)
      → Wellformed p
      → view (remove_each order p).0.entries t ≡ some h
      → (contains order t ≡ false) × (view p.entries t ≡ some h)
  unfolding remove_each contains
  remove_each_left [] p t h w there = (refl, there)
  remove_each_left (txid ∷ order) p t h w there =
      let one = remove_lem p txid w in
      let rest = remove_each_left order (remove p txid).0 t h one.0 there in
      let before = with_none txid t (view p.entries) h (sym (ap (λ look. look t) one.1) ∙ rest.1) in
      (rw (same_apart t txid before.0) rest.0, before.1)

  -- A removal never adds to the bytes.
  remove_found_bytes :
      (p : Mempool F) (txid : Hash256) (o : Option (MempoolEntry F))
      → (remove_found p txid o).0.total_bytes ≤ p.total_bytes
  unfolding remove_found remove_entry
  remove_found_bytes p txid none = omega arith
  remove_found_bytes p txid (some e) = omega arith

  pub remove_bytes :
      (p : Mempool F) (txid : Hash256) → (remove p txid).0.total_bytes ≤ p.total_bytes
  unfolding remove
  remove_bytes p txid = remove_found_bytes p txid (find p.entries txid)

  pub remove_each_bytes :
      (order : List Hash256) (p : Mempool F) → (remove_each order p).0.total_bytes ≤ p.total_bytes
  unfolding remove_each
  remove_each_bytes [] p = omega arith
  remove_each_bytes (txid ∷ order) p =
      omega (arith, remove_bytes p txid, remove_each_bytes order (remove p txid).0)
