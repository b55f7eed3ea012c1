-- ===== src/Node/Mempool/Accepted.antt =====
-- mempool.rs: what an insertion that succeeds says of the transaction, and the other operations.
use fluxd_rust.Prelude.{
  ◌+◌, ◌^◌, ◌<◌, ◌≡◌, refl, sym, ap, ◌∙◌, List, true, ◌&&◌, Bool-cases, inl, inr, Option, none,
  some, ltb, arith,
}
use mathlib.Core.Path.{subst}
use fluxd_rust.Prelude.Int.{ℤ}
use fluxd_rust.Prelude.Result.{ok, err}
use fluxd_rust.Prelude.HashMap.{contains, find, Unique}
use fluxd_rust.Primitives.OutPoint.{OutPoint}
use fluxd_rust.Node.Mempool.{
  Hash256, hash_key, key_of_outpoint, MempoolErrorKind, mempool_full, already_in_mempool,
  conflicting_input, MempoolEntry, Mempool, MempoolInsertOutcome, size_of, concat, is_some,
  has_conflict, spender,
}
use fluxd_rust.Node.Mempool.Insertion.{
  add_entry, make_room, settle, no_eviction, evict_to_fit, prioritised, insert_entry, reprioritise,
  prioritise_transaction,
}
use fluxd_rust.Node.Mempool.Indexed.{with_same}
use fluxd_rust.Node.Mempool.Wellformed.{
  Held, held_of, held_option, view, view-insert, Wellformed, insert-Unchanged, Unchanged,
}
use fluxd_rust.Node.Mempool.Eviction.{evict_to_fit_left, evict_to_fit_fits}
use fluxd_rust.Node.Mempool.Admission.{
  Outcome, if_cases, absent, add_entry-Wellformed, settle_pool, make_room-Sound,
  held_of-with_priority,
}

module _ {F : Type 0} where
  view-add_entry :
      (p : Mempool F) (e : MempoolEntry F) → view (add_entry p e).entries e.txid ≡ some (held_of e)
  unfolding add_entry
  view-add_entry p e =
      ap (λ seen. seen e.txid) (view-insert e.txid e p.entries)
      ∙ with_same e.txid (some (held_of e)) (view p.entries)

  present : (o : Option (MempoolEntry F)) → is_some o ≡ true → (h : Held) × (held_option o ≡ some h)
  present none h = absurd cc
  present (some e) h = (held_of e, refl)

  settle-ok :
      (t : Hash256) (q : Mempool F) (made o : MempoolInsertOutcome)
      → (settle t (q, made)).1 ≡ ok o
      → 0 < q.max_bytes
      → is_some (find q.entries t) ≡ true
  unfolding settle
  settle-ok t q made o h limit = elim (Bool-cases (is_some (find q.entries t))) [
    | inl there ↦ there
    | inr gone ↦
        let full : ltb 0 q.max_bytes ≡ true = ground arith in
        let refused : err mempool_full ≡ ok o = rw (full, gone) at h in absurd cc
  ]

  -- `settle` succeeds on the pool behind an addition only when the transaction is still there.
  settle_kept :
      (p : Mempool F) (e : MempoolEntry F) (o : MempoolInsertOutcome)
      → Wellformed (add_entry p e)
      → (settle e.txid (make_room (add_entry p e))).1 ≡ ok o
      → view (make_room (add_entry p e)).0.entries e.txid ≡ some (held_of e)
  settle_kept p e o w =
      let q = add_entry p e in
      if_cases
        (λ (r : Mempool F × MempoolInsertOutcome).
          (settle e.txid r).1 ≡ ok o → view r.0.entries e.txid ≡ some (held_of e))
        (ltb 0 q.max_bytes && ltb q.max_bytes q.total_bytes) (evict_to_fit q) (q, no_eviction)
        (λ large fine.
          let limited : 0 < q.max_bytes = ground (arith, large) in
          let fits = evict_to_fit_fits q w in
          let found =
            settle-ok e.txid (evict_to_fit q).0 (evict_to_fit q).1 o fine
              (omega (arith, limited, fits.2)) in
          let kept = present (find (evict_to_fit q).0.entries e.txid) found in
          let before = evict_to_fit_left q e.txid kept.0 w kept.1 in
          kept.1 ∙ sym before ∙ view-add_entry p e)
        (λ small fine. view-add_entry p e)

  module _ (add : F → F → F) where
    -- What a success of `insert` says, of the outcome `r`.
    abbrev Accepts : Held → Outcome F → Type 0
    Accepts e r =
        (o : MempoolInsertOutcome)
        → r.1 ≡ ok o
        → (view r.0.entries e.txid ≡ some e)
          × ((k : OutPoint) → contains e.spent_outpoints k ≡ true → spender r.0 k ≡ some e.txid)

    refused : (kind : MempoolErrorKind) (p : Mempool F) (e : Held) → Accepts e (p, err kind)
    refused kind p e o h = absurd cc

    accepted :
        (p : Mempool F) (e : MempoolEntry F)
        → Wellformed (add_entry p e)
        → Accepts (held_of e) (settle e.txid (make_room (add_entry p e)))
    accepted p e w o h =
        let q = make_room (add_entry p e) in
        let sound = make_room-Sound (add_entry p e) (add_entry p e) w refl in
        let w' : Wellformed (settle e.txid q).0 = rw (settle_pool e.txid q) sound.wellformed in
        let there : view (settle e.txid q).0.entries e.txid ≡ some (held_of e) =
          rw (settle_pool e.txid q) (settle_kept p e o w h) in
        (there, λ k c. w'.outpoints.held e.txid (held_of e) k there c)

    insert_entry-Accepts :
        (p : Mempool F) (entry : MempoolEntry F)
        → Wellformed p
        → p.total_bytes + size_of (prioritised add p entry) < 2 ^ 64
        → Accepts (held_of (prioritised add p entry)) (insert_entry add p entry)
    unfolding insert_entry
    insert_entry-Accepts p entry w fits =
        let e = prioritised add p entry in
        let P = Accepts (held_of e) in
        let no : (kind : MempoolErrorKind) → P (p, err kind) = λ kind. refused kind p (held_of e) in
        if_cases P (ltb 0 p.max_bytes && ltb p.max_bytes (size_of e)) _ _ (λ h. no mempool_full)
          (λ h0.
            if_cases P (is_some (find p.entries e.txid)) _ _ (λ h. no already_in_mempool)
              (λ h1.
                if_cases P (has_conflict e.spent_outpoints p.spent) _ _ (λ h. no conflicting_input)
                  (λ h2.
                    if_cases P (has_conflict (concat e.tx.join_splits) p.sprout_nullifiers) _ _
                      (λ h. no conflicting_input)
                      (λ h3.
                        if_cases P (has_conflict e.tx.shielded_spends p.sapling_nullifiers) _ _
                          (λ h. no conflicting_input)
                          (λ h4. accepted p e (
                            add_entry-Wellformed p e w fits (absent (find p.entries e.txid) h1) h2
                              h3 h4))))))

    -- A transaction that `insert` accepts is in the pool, behind any eviction, and is the spender of all its
    -- outpoints, when the pool was well-formed and the bytes fit a machine word.
    pub insert_entry-ok :
        (p : Mempool F) (entry : MempoolEntry F) (o : MempoolInsertOutcome)
        → Wellformed p
        → p.total_bytes + size_of entry < 2 ^ 64
        → (insert_entry add p entry).1 ≡ ok o
        → (view (insert_entry add p entry).0.entries entry.txid ≡ some (held_of entry))
          × ((k : OutPoint)
              → contains entry.spent_outpoints k ≡ true
              → spender (insert_entry add p entry).0 k ≡ some entry.txid)
    insert_entry-ok p entry o w fits h =
        let same = held_of-with_priority add (find p.prioritisations entry.txid) entry in
        let fits' : p.total_bytes + size_of (prioritised add p entry) < 2 ^ 64 =
          omega (arith, fits, ap (λ (x : Held). x.size) same) in
        subst (λ x. Accepts x (insert_entry add p entry)) same
          (insert_entry-Accepts p entry w fits') o h

    -- A change of priority touches neither the indexes nor the sizes.
    reprioritise-Unchanged :
        (t : Hash256) (priority_delta : F) (fee_delta : ℤ) (o : Option (MempoolEntry F))
        (m : List (Hash256 × MempoolEntry F))
        → find m t ≡ o
        → Unique m
        → Unchanged m (reprioritise add t priority_delta fee_delta o m)
    unfolding reprioritise
    reprioritise-Unchanged t pd fd none m here u = record { unique = u; views = refl; sums = refl }
    reprioritise-Unchanged t pd fd (some e) m here u = insert-Unchanged m t e _ u here refl

    pub prioritise_transaction-Wellformed :
        (p : Mempool F) (txid : Hash256) (priority_delta : F) (fee_delta : ℤ) (zero_f : F)
        → Wellformed p
        → Wellformed (prioritise_transaction add p txid priority_delta fee_delta zero_f)
    unfolding prioritise_transaction
    prioritise_transaction-Wellformed p txid pd fd z w =
        let same =
          reprioritise-Unchanged txid pd fd (find p.entries txid) p.entries refl w.unique in
        record {
          unique = same.unique;
          keyed = λ t h there. w.keyed t h (sym (ap (λ seen. seen t) same.views) ∙ there);
          counted = w.counted ∙ sym same.sums;
          outpoints = rw same.views w.outpoints;
          sprouts = rw same.views w.sprouts;
          saplings = rw same.views w.saplings;
        }
