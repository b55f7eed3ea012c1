-- ===== src/Node/Mempool/Eviction.antt =====
-- mempool.rs: `evict_to_fit` makes the pool fit.
use fluxd_rust.Prelude.{
  ◌≤◌, ◌≡◌, ◌≢◌, refl, ap, ◌∙◌, List, [], ◌∷◌, ◌++◌, map, true, Bool-cases, inl, inr, length,
  Option, none, some, leb, leb→le, arith,
}
use fluxd_rust.Prelude.HashMap.{contains, find, same_refl, sum_of}
use fluxd_rust.Storage.Memory.{same_bytes}
use fluxd_rust.Node.Mempool.{
  Hash256, hash_key, MempoolEntry, Mempool, MempoolInsertOutcome, EvictCandidate, size_of,
}
use fluxd_rust.Node.Mempool.Claims.{contains_cons, contains_behind}
use fluxd_rust.Node.Mempool.Removal.{visit, visit_each, descendants, remove_with_descendants}
use fluxd_rust.Node.Mempool.Insertion.{
  comes_after, place, sort_candidates, candidate_of, count_eviction, evict_loop, evict_to_fit,
  no_eviction,
}
use fluxd_rust.Node.Mempool.Wellformed.{
  Held, held_of, held_option, view, Wellformed, remove_each-Wellformed, remove_each_left,
}

contains_snoc : (xs : List Hash256) (x : Hash256) → contains (xs ++ (x ∷ [])) x ≡ true
unfolding contains
contains_snoc [] x = rw (same_refl x) refl
contains_snoc (y ∷ xs) x = ground (arith, contains_snoc xs x)

abbrev txids_of : List EvictCandidate → List Hash256
txids_of cs = map (λ c. c.txid) cs

place-contains :
    (c : EvictCandidate) (cs : List EvictCandidate) (t : Hash256)
    → contains (c.txid ∷ txids_of cs) t ≡ true
    → contains (txids_of (place c cs)) t ≡ true
unfolding place contains
place-contains c [] t h = h
place-contains c (x ∷ xs) t h = elim (Bool-cases (comes_after c x)) [
  | inr before ↦ rw before h
  | inl after ↦ rw after (ground (arith, h, place-contains c xs t))
]

sort_candidates-contains :
    (cs : List EvictCandidate) (t : Hash256)
    → contains (txids_of cs) t ≡ true
    → contains (txids_of (sort_candidates cs)) t ≡ true
unfolding sort_candidates contains
sort_candidates-contains [] t h = h
sort_candidates-contains (c ∷ cs) t h =
    place-contains c (sort_candidates cs) t (ground (arith, h, sort_candidates-contains cs t))

module _ {F : Type 0} where
  -- The transaction itself is visited last.
  descendants_self : (p : Mempool F) (txid : Hash256) → contains (descendants p txid) txid ≡ true
  unfolding descendants visit contains
  descendants_self p txid =
      let below : List Hash256 = elim (find p.children txid) [ none ↦ [] | some cs ↦ cs ] in
      contains_snoc (visit_each (visit (length p.children) p.children) below (txid ∷ [], [])).1 txid

  no_entries :
      (m : List (Hash256 × MempoolEntry F))
      → ((t : Hash256) (h : Held) → view m t ≡ some h → ⊥)
      → sum_of size_of m ≡ 0
  unfolding sum_of find
  no_entries [] empty = refl
  no_entries ((k, e) ∷ m) empty = absurd (empty k (held_of e) (rw (same_refl k) refl))

  pub remove_with_descendants-Wellformed :
      (p : Mempool F) (txid : Hash256)
      → Wellformed p
      → Wellformed (remove_with_descendants p txid).0
        × ((remove_with_descendants p txid).0.max_bytes ≡ p.max_bytes)
  unfolding remove_with_descendants
  remove_with_descendants-Wellformed p txid w = remove_each-Wellformed (descendants p txid) p w

  pub remove_with_descendants_left :
      (p : Mempool F) (txid t : Hash256) (h : Held)
      → Wellformed p
      → view (remove_with_descendants p txid).0.entries t ≡ some h
      → (t ≢ txid) × (view p.entries t ≡ some h)
  unfolding remove_with_descendants
  remove_with_descendants_left p txid t h w there =
      let left = remove_each_left (descendants p txid) p t h w there in
      (
        (λ same.
            let hit : contains (descendants p txid) t ≡ true = rw same (descendants_self p txid) in
            absurd cc),
        left.1,
      )

  evict_loop_fits :
      (cs : List EvictCandidate) (p : Mempool F) (o : MempoolInsertOutcome)
      → Wellformed p
      → ((t : Hash256) (h : Held) → view p.entries t ≡ some h → contains (txids_of cs) t ≡ true)
      → Wellformed (evict_loop cs p o).0
        × ((evict_loop cs p o).0.total_bytes ≤ p.max_bytes)
        × ((evict_loop cs p o).0.max_bytes ≡ p.max_bytes)
  unfolding evict_loop contains
  evict_loop_fits [] p o w all = (
    w,
    omega (arith, w.counted, no_entries p.entries (λ t h there. let c = all t h there in cc)),
    refl,
  )
  evict_loop_fits (c ∷ cs) p o w all =
      let removal = remove_with_descendants p c.txid in
      let removed = remove_with_descendants-Wellformed p c.txid w in
      elim (Bool-cases (leb p.total_bytes p.max_bytes)) [
        | inl fits ↦ rw fits (w, leb→le p.total_bytes p.max_bytes fits, refl)
        | inr more ↦
            let later = evict_loop_fits cs removal.0 (count_eviction removal.1 o) removed.0 rest in
            rw more (later.0, omega (arith, later.1, removed.1), later.2 ∙ removed.1)
      ]
    where
      rest :
          (t : Hash256) (h : Held)
          → view (remove_with_descendants p c.txid).0.entries t ≡ some h
          → contains (txids_of cs) t ≡ true
      rest t h there =
          let left = remove_with_descendants_left p c.txid t h w there in
          elim (contains_cons t c.txid (txids_of cs) (all t h left.1)) [
            | inl same ↦ absurd (left.0 same)
            | inr behind ↦ behind
          ]

  evict_loop_left :
      (cs : List EvictCandidate) (p : Mempool F) (o : MempoolInsertOutcome) (t : Hash256) (h : Held)
      → Wellformed p
      → view (evict_loop cs p o).0.entries t ≡ some h
      → view p.entries t ≡ some h
  unfolding evict_loop
  evict_loop_left [] p o t h w there = there
  evict_loop_left (c ∷ cs) p o t h w there = elim (Bool-cases (leb p.total_bytes p.max_bytes)) [
    | inl fits ↦ rw fits at there
    | inr more ↦
        let removal = remove_with_descendants p c.txid in
        let removed = remove_with_descendants-Wellformed p c.txid w in
        let later =
          evict_loop_left cs removal.0 (count_eviction removal.1 o) t h removed.0
            (rw more at there) in
        (remove_with_descendants_left p c.txid t h w later).1
  ]

  -- An eviction changes no transaction that it leaves.
  pub evict_to_fit_left :
      (p : Mempool F) (t : Hash256) (h : Held)
      → Wellformed p
      → view (evict_to_fit p).0.entries t ≡ some h
      → view p.entries t ≡ some h
  unfolding evict_to_fit
  evict_to_fit_left p t h w there =
      evict_loop_left (sort_candidates (map candidate_of p.entries)) p no_eviction t h w there

  all_candidates :
      (m : List (Hash256 × MempoolEntry F)) (t : Hash256) (e : MempoolEntry F)
      → find m t ≡ some e
      → e.txid ≡ t
      → contains (txids_of (map candidate_of m)) t ≡ true
  unfolding find contains candidate_of
  all_candidates [] t e h named = absurd cc
  all_candidates ((k, e') ∷ m) t e h named = elim (Bool-cases (same_bytes t k)) [
    | inl same ↦
        let here : some e' ≡ some e = rw same at h in
        let found : e' ≡ e = cc in
        let at : e'.txid ≡ t = ap (λ (x : MempoolEntry F). x.txid) found ∙ named in
        rw (at, same_refl t) refl
    | inr other ↦
        contains_behind t e'.txid (txids_of (map candidate_of m))
          (all_candidates m t e (rw other at h) named)
  ]

  pub held_option-some :
      (o : Option (MempoolEntry F)) (h : Held)
      → held_option o ≡ some h
      → (e : MempoolEntry F) × (o ≡ some e) × (held_of e ≡ h)
  held_option-some none h there = absurd cc
  held_option-some (some e) h there = (e, refl, cc)

  -- Behind `evict_to_fit` a well-formed pool is well-formed still, and its bytes are at most the limit,
  -- which stays the same.
  pub evict_to_fit_fits :
      (p : Mempool F)
      → Wellformed p
      → Wellformed (evict_to_fit p).0
        × ((evict_to_fit p).0.total_bytes ≤ p.max_bytes)
        × ((evict_to_fit p).0.max_bytes ≡ p.max_bytes)
  unfolding evict_to_fit
  evict_to_fit_fits p w =
      evict_loop_fits (sort_candidates (map candidate_of p.entries)) p no_eviction w all
    where
      all :
          (t : Hash256) (h : Held)
          → view p.entries t ≡ some h
          → contains (txids_of (sort_candidates (map candidate_of p.entries))) t ≡ true
      all t h there =
          let e = held_option-some (find p.entries t) h there in
          sort_candidates-contains (map candidate_of p.entries) t
            (all_candidates p.entries t e.0 e.1 (ap (λ (x : Held). x.txid) e.2 ∙ w.keyed t h there))
