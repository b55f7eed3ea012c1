-- ===== src/Node/Mempool/Admission.antt =====
-- mempool.rs: what an insertion leaves of the pool, whatever its outcome.
use fluxd_rust.Prelude.{
  ◌+◌, ◌^◌, ◌≤◌, ◌<◌, ◌≡◌, refl, sym, ap, ◌∙◌, List, Bool, true, false, ◌&&◌, not, inl, inr, Option,
  none, some, if◌then◌else◌, ltb, arith,
}
use fluxd_rust.Prelude.Result.{Result, ok, err}
use fluxd_rust.Prelude.HashMap.{find, insert, Unique-insert, same_or, sum_of, erase_absent}
use fluxd_rust.Node.Mempool.{
  Hash256, hash_key, key_of_outpoint, MempoolErrorKind, mempool_full, MempoolEntry, Mempool,
  MempoolInsertOutcome, Prioritisation, size_of, concat, is_some, has_conflict,
}
use fluxd_rust.Node.Mempool.Insertion.{
  add_entry, make_room, settle, no_eviction, evict_to_fit, with_priority, prioritised, insert_entry,
}
use fluxd_rust.Node.Mempool.Indexed.{with_entry, with_same, with_apart, Indexed-claim_all}
use fluxd_rust.Node.Mempool.Wellformed.{Held, held_of, held_option, view, view-insert, Wellformed}
use fluxd_rust.Node.Mempool.Eviction.{evict_to_fit_fits}

pub if_cases {ℓ κ} :
    {A : Type ℓ} (P : A → Type κ) (b : Bool) (x y : A)
    → (b ≡ true → P x)
    → (b ≡ false → P y)
    → P (if b then x else y)
if_cases P true x y px py = px refl
if_cases P false x y px py = py refl

keyed_new :
    (e : Held) (look : Hash256 → Option Held)
    → ((t : Hash256) (h : Held) → look t ≡ some h → h.txid ≡ t)
    → (t : Hash256) (h : Held) → with_entry e.txid (some e) look t ≡ some h
    → h.txid ≡ t
keyed_new e look keyed t h there = elim (same_or t e.txid) [
  | inr apart ↦ keyed t h (sym (with_apart e.txid t (some e) look apart) ∙ there)
  | inl same ↦
      let here : some e ≡ some h =
        sym (with_same e.txid (some e) look)
        ∙ ap (with_entry e.txid (some e) look) (sym same)
        ∙ there in
      let found : e ≡ h = cc in ap (λ (x : Held). x.txid) (sym found) ∙ sym same
]

abbrev pub Outcome : Type 0 → Type 0
Outcome F = Mempool F × Result MempoolErrorKind MempoolInsertOutcome

module _ {F : Type 0} where
  pub absent : (o : Option (MempoolEntry F)) → is_some o ≡ false → o ≡ none
  absent none h = refl
  absent (some e) h = absurd cc

  sum_of-new :
      (t : Hash256) (e : MempoolEntry F) (m : List (Hash256 × MempoolEntry F))
      → find m t ≡ none
      → sum_of size_of (insert t e m) ≡ size_of e + sum_of size_of m
  unfolding sum_of insert
  sum_of-new t e m new = ap (λ rest. size_of e + sum_of size_of rest) (erase_absent t m new)

  pub add_entry-Wellformed :
      (p : Mempool F) (e : MempoolEntry F)
      → Wellformed p
      → p.total_bytes + size_of e < 2 ^ 64
      → find p.entries e.txid ≡ none
      → has_conflict e.spent_outpoints p.spent ≡ false
      → has_conflict (concat e.tx.join_splits) p.sprout_nullifiers ≡ false
      → has_conflict e.tx.shielded_spends p.sapling_nullifiers ≡ false
      → Wellformed (add_entry p e)
  unfolding add_entry
  add_entry-Wellformed p e w fits new o1 o2 o3 =
      let look = view p.entries in
      let t = e.txid in
      let views = view-insert t e p.entries in
      let unseen : look t ≡ none = ap held_option new in
      record {
        unique = Unique-insert t e p.entries w.unique;
        keyed = λ t' h there.
            keyed_new (held_of e) look w.keyed t' h (sym (ap (λ seen. seen t') views) ∙ there);
        counted = omega (arith, fits, w.counted, sum_of-new t e p.entries new);
        outpoints = rw views (
            Indexed-claim_all (λ (h : Held). h.spent_outpoints) look p.spent t (held_of e) unseen o1
              w.outpoints);
        sprouts = rw views (
            Indexed-claim_all (λ (h : Held). concat h.tx.join_splits) look p.sprout_nullifiers t
              (held_of e) unseen o2 w.sprouts);
        saplings = rw views (
            Indexed-claim_all (λ (h : Held). h.tx.shielded_spends) look p.sapling_nullifiers t
              (held_of e) unseen o3 w.saplings);
      }

  -- Of a pool behind an operation: it is well-formed, and it is no larger than its limit if it was not before.
  pub record Sound (p q : Mempool F) : Type 0 where
    pub wellformed : Wellformed q
    pub limit : q.max_bytes ≡ p.max_bytes
    pub fits : 0 < p.max_bytes → p.total_bytes ≤ p.max_bytes → q.total_bytes ≤ q.max_bytes

  pub make_room-Sound :
      (p q : Mempool F) → Wellformed q → q.max_bytes ≡ p.max_bytes → Sound p (make_room q).0
  make_room-Sound p q w same =
      if_cases (λ (r : Mempool F × MempoolInsertOutcome). Sound p r.0)
        (ltb 0 q.max_bytes && ltb q.max_bytes q.total_bytes) (evict_to_fit q) (q, no_eviction)
        (λ large.
          let e = evict_to_fit_fits q w in
          record {
            wellformed = e.0;
            limit = e.2 ∙ same;
            fits = λ some_limit fit. omega (arith, e.1, e.2);
          })
        (λ small. record {
          wellformed = w;
          limit = same;
          fits = λ some_limit fit. ground (arith, small);
        })

  pub settle_pool : (t : Hash256) (r : Mempool F × MempoolInsertOutcome) → (settle t r).0 ≡ r.0
  unfolding settle
  settle_pool t (q, o) =
      if_cases (λ (r : Outcome F). r.0 ≡ q) (ltb 0 q.max_bytes && not (is_some (find q.entries t)))
        (q, err mempool_full) (q, ok o) (λ full. refl) (λ fine. refl)

  module _ (add : F → F → F) where
    pub held_of-with_priority :
        (o : Option (Prioritisation F)) (e : MempoolEntry F)
        → held_of (with_priority add o e) ≡ held_of e
    unfolding with_priority
    held_of-with_priority none e = refl
    held_of-with_priority (some given) e = refl

    -- A well-formed pool stays well-formed and within its limit under `insert`, whatever the outcome, an error
    -- included, when the sum of its bytes and those of the transaction fits a machine word.
    pub insert_entry-Sound :
        (p : Mempool F) (entry : MempoolEntry F)
        → Wellformed p
        → p.total_bytes + size_of entry < 2 ^ 64
        → Sound p (insert_entry add p entry).0
    unfolding insert_entry add_entry
    insert_entry-Sound p entry w fits =
        let e = prioritised add p entry in
        let same = held_of-with_priority (find p.prioritisations entry.txid) entry in
        let fits' : p.total_bytes + size_of e < 2 ^ 64 =
          omega (arith, fits, ap (λ (h : Held). h.size) same) in
        let unchanged : Sound p p = record {
          wellformed = w;
          limit = refl;
          fits = λ some_limit fit. fit;
        } in
        let P = λ (r : Outcome F). Sound p r.0 in
        if_cases P (ltb 0 p.max_bytes && ltb p.max_bytes (size_of e)) _ _ (λ h. unchanged)
          (λ h0.
            if_cases P (is_some (find p.entries e.txid)) _ _ (λ h. unchanged)
              (λ h1.
                if_cases P (has_conflict e.spent_outpoints p.spent) _ _ (λ h. unchanged)
                  (λ h2.
                    if_cases P (has_conflict (concat e.tx.join_splits) p.sprout_nullifiers) _ _
                      (λ h. unchanged)
                      (λ h3.
                        if_cases P (has_conflict e.tx.shielded_spends p.sapling_nullifiers) _ _
                          (λ h. unchanged)
                          (λ h4.
                            let wf =
                              add_entry-Wellformed p e w fits' (absent (find p.entries e.txid) h1)
                                h2 h3 h4 in
                            rw (settle_pool e.txid (make_room (add_entry p e)))
                              (make_room-Sound p (add_entry p e) wf refl))))))
