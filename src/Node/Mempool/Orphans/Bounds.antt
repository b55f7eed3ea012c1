-- ===== src/Node/Mempool/Orphans/Bounds.antt =====
-- mempool.rs: the orphans stay within their number and their bytes.
use fluxd_rust.Prelude.{
  ℕ, zero, suc, ◌+◌, ◌≤◌, ◌≡◌, ◌≢◌, ◌⊎◌, refl, sym, ap, ◌∙◌, List, [], ◌∷◌, Bool, true, false,
  Bool-cases, inl, inr, length, Option, none, some, if◌then◌else◌, ltb, arith,
}
use fluxd_rust.Prelude.HashMap.{
  find, erase, same_refl, same_apart, same_or, find-erase, find-erase_same, Unique, Unique-erase,
  sum_of, sum_of-erase,
}
use fluxd_rust.Storage.Memory.{same_bytes}
use fluxd_rust.Node.Mempool.{Hash256, hash_key}
use fluxd_rust.Node.Mempool.Orphans.{
  OrphanTx, OrphanPool, default_max_orphans, default_max_orphan_bytes, remove_orphan_found,
  remove_orphan, older, oldest, evict_found, evict_oldest_orphan, remove_orphans, is_full,
  make_orphan_room, take_each,
}

abbrev pub bytes_of : OrphanTx → ℕ
bytes_of o = length o.raw

abbrev one_of : OrphanTx → ℕ
one_of o = 1

sum_of-one : (m : List (Hash256 × OrphanTx)) → sum_of one_of m ≡ length m
unfolding sum_of
sum_of-one [] = refl
sum_of-one ((k, o) ∷ m) = omega (arith, sum_of-one m)

-- Each orphan stands under its txid, and the bytes are counted.
pub record Counted (p : OrphanPool) : Type 0 where
  pub unique : Unique p.orphans
  pub keyed : (t : Hash256) (o : OrphanTx) → find p.orphans t ≡ some o → o.txid ≡ t
  pub counted : p.orphan_bytes ≡ sum_of bytes_of p.orphans

pub record Bounded (p : OrphanPool) : Type 0 where
  pub counts : Counted p
  pub few : length p.orphans ≤ default_max_orphans
  pub small : p.orphan_bytes ≤ default_max_orphan_bytes

-- Behind a removal: no more orphans and no more bytes than before.
pub record Fewer (p q : OrphanPool) : Type 0 where
  pub counts : Counted q
  pub number : length q.orphans ≤ length p.orphans
  pub bytes : q.orphan_bytes ≤ p.orphan_bytes
  pub gone : (t : Hash256) → find p.orphans t ≡ none → find q.orphans t ≡ none

pub Fewer-refl : (p : OrphanPool) → Counted p → Fewer p p
Fewer-refl p c = record {
  counts = c;
  number = omega arith;
  bytes = omega arith;
  gone = λ t absent. absent;
}

remove_orphan_found-Fewer :
    (p : OrphanPool) (txid : Hash256) (o : Option OrphanTx)
    → find p.orphans txid ≡ o
    → Counted p
    → Fewer p (remove_orphan_found p txid o).0
unfolding remove_orphan_found
remove_orphan_found-Fewer p txid none here c = Fewer-refl p c
remove_orphan_found-Fewer p txid (some o) here c =
    let n = sum_of-erase one_of txid o p.orphans c.unique here in
    let b = sum_of-erase bytes_of txid o p.orphans c.unique here in
    record {
      counts = record {
        unique = Unique-erase txid p.orphans c.unique;
        keyed = λ t q there. elim (same_or t txid) [
          | inl same ↦
              let gone : find (erase txid p.orphans) t ≡ none =
                rw same (find-erase_same txid p.orphans) in
              absurd cc
          | inr apart ↦ c.keyed t q (sym (find-erase txid t p.orphans apart) ∙ there)
        ];
        counted = omega (arith, c.counted, b);
      };
      number = omega (arith, n, sum_of-one p.orphans, sum_of-one (erase txid p.orphans));
      bytes = omega arith;
      gone = λ t absent. elim (same_or t txid) [
        | inl same ↦ rw same (find-erase_same txid p.orphans)
        | inr apart ↦ find-erase txid t p.orphans apart ∙ absent
      ];
    }

pub remove_orphan-Fewer :
    (p : OrphanPool) (txid : Hash256) → Counted p → Fewer p (remove_orphan p txid).0
unfolding remove_orphan
remove_orphan-Fewer p txid c = remove_orphan_found-Fewer p txid (find p.orphans txid) refl c

pub Fewer-trans : (p q r : OrphanPool) → Fewer p q → Fewer q r → Fewer p r
Fewer-trans p q r a b = record {
  counts = b.counts;
  number = omega (arith, a.number, b.number);
  bytes = omega (arith, a.bytes, b.bytes);
  gone = λ t absent. b.gone t (a.gone t absent);
}

pub remove_orphans-Fewer :
    (txids : List Hash256) (p : OrphanPool) → Counted p → Fewer p (remove_orphans txids p)
unfolding remove_orphans
remove_orphans-Fewer [] p c = Fewer-refl p c
remove_orphans-Fewer (txid ∷ txids) p c =
    let one = remove_orphan-Fewer p txid c in
    Fewer-trans p (remove_orphan p txid).0 (remove_orphans txids (remove_orphan p txid).0) one
      (remove_orphans-Fewer txids (remove_orphan p txid).0 one.counts)

pub take_each-Fewer :
    (txids : List Hash256) (p : OrphanPool) → Counted p → Fewer p (take_each txids p).0
unfolding take_each
take_each-Fewer [] p c = Fewer-refl p c
take_each-Fewer (txid ∷ txids) p c =
    let one = remove_orphan-Fewer p txid c in
    Fewer-trans p (remove_orphan p txid).0 (take_each txids (remove_orphan p txid).0).0 one
      (take_each-Fewer txids (remove_orphan p txid).0 one.counts)

-- The oldest orphan is one of the pool.
oldest-found :
    (m : List (Hash256 × OrphanTx)) (o : OrphanTx)
    → Unique m
    → oldest m ≡ some o
    → (k : Hash256) × (find m k ≡ some o)
unfolding oldest older find Unique
oldest-found [] o u h = absurd cc
oldest-found ((k, q) ∷ m) o u h = go (λ o' h'. oldest-found m o' u.1 h') (oldest m) refl h
  where
    first :
        some q ≡ some o → (x : Hash256) × ((if same_bytes x k then some q else find m x) ≡ some o)
    first e = (k, rw (same_refl k) e)

    go :
        ((o' : OrphanTx) → oldest m ≡ some o' → (x : Hash256) × (find m x ≡ some o'))
        → (best : Option OrphanTx) → oldest m ≡ best
        → older q best ≡ some o
        → (x : Hash256) × ((if same_bytes x k then some q else find m x) ≡ some o)
    go later none e h = first h
    go later (some b) e h = elim (Bool-cases (ltb b.received q.received)) [
      | inr newer ↦ first (rw newer at h)
      | inl before ↦
          let at_o : oldest m ≡ some o = e ∙ rw before at h in
          let r = later o at_o in
          let apart : r.0 ≢ k =
            λ same. let absent : find m r.0 ≡ none = ap (find m) same ∙ u.0 in cc in
          (r.0, rw (same_apart r.0 k apart) r.1)
    ]

older_some : (o : OrphanTx) (best : Option OrphanTx) → older o best ≢ none
unfolding older
older_some o none h = cc
older_some o (some b) h = elim (Bool-cases (ltb b.received o.received)) [
  | inl before ↦ let x : some b ≡ none = rw before at h in cc
  | inr newer ↦ let x : some o ≡ none = rw newer at h in cc
]

oldest-none : (m : List (Hash256 × OrphanTx)) → oldest m ≡ none → length m ≡ 0
unfolding oldest
oldest-none [] h = refl
oldest-none ((k, o) ∷ m) h = absurd (older_some o (oldest m) h)

-- What a removal of one that is there takes away.
remove_orphan_number :
    (p : OrphanPool) (txid : Hash256) (o : OrphanTx)
    → Unique p.orphans
    → find p.orphans txid ≡ some o
    → length (remove_orphan p txid).0.orphans + 1 ≡ length p.orphans
unfolding remove_orphan remove_orphan_found
remove_orphan_number p txid o u here =
    let n = sum_of-erase one_of txid o p.orphans u here in
    rw here (omega (arith, n, sum_of-one p.orphans, sum_of-one (erase txid p.orphans)))

-- A round of the loop takes an orphan away, or there is none.
abbrev Shrinks : OrphanPool → OrphanPool × Bool → Type 0
Shrinks p r =
    Fewer p r.0
    × (((r.1 ≡ true) × (length r.0.orphans + 1 ≡ length p.orphans))
        ⊎ ((r.1 ≡ false) × (length p.orphans ≡ 0)))

evict_found-Shrinks :
    (p : OrphanPool) (best : Option OrphanTx)
    → oldest p.orphans ≡ best
    → Counted p
    → Shrinks p (evict_found p best)
unfolding evict_found
evict_found-Shrinks p none e c = (Fewer-refl p c, inr (refl, oldest-none p.orphans e))
evict_found-Shrinks p (some o) e c =
    let found = oldest-found p.orphans o c.unique e in
    let here : find p.orphans o.txid ≡ some o =
      ap (find p.orphans) (c.keyed found.0 o found.1) ∙ found.1 in
    (remove_orphan-Fewer p o.txid c, inl (refl, remove_orphan_number p o.txid o c.unique here))

evict_oldest_orphan-Shrinks : (p : OrphanPool) → Counted p → Shrinks p (evict_oldest_orphan p)
unfolding evict_oldest_orphan
evict_oldest_orphan-Shrinks p c = evict_found-Shrinks p (oldest p.orphans) refl c

no_bytes : (m : List (Hash256 × OrphanTx)) → length m ≡ 0 → sum_of bytes_of m ≡ 0
unfolding sum_of
no_bytes [] h = refl
no_bytes ((k, o) ∷ m) h = absurd (omega arith)

empty_not_full :
    (p : OrphanPool) (size : ℕ)
    → Counted p
    → length p.orphans ≡ 0
    → size ≤ default_max_orphan_bytes
    → is_full p size ≡ false
empty_not_full p size c empty fits =
    let none_held : p.orphan_bytes ≡ 0 = c.counted ∙ no_bytes p.orphans empty in
    ground (arith, none_held, empty)

pub make_orphan_room-Fewer :
    (fuel : ℕ) (p : OrphanPool) (size : ℕ)
    → Counted p
    → length p.orphans ≤ fuel
    → size ≤ default_max_orphan_bytes
    → Fewer p (make_orphan_room fuel p size) × (is_full (make_orphan_room fuel p size) size ≡ false)
unfolding make_orphan_room
make_orphan_room-Fewer zero p size c enough fits =
    (Fewer-refl p c, empty_not_full p size c (omega arith) fits)
make_orphan_room-Fewer (suc fuel) p size c enough fits = elim (Bool-cases (is_full p size)) [
  | inr room ↦ rw room (Fewer-refl p c, room)
  | inl full ↦
      let one = evict_oldest_orphan p in
      let s = evict_oldest_orphan-Shrinks p c in
      elim s.1 [
        | inr empty ↦ let r = empty_not_full p size c empty.1 fits in absurd cc
        | inl less ↦
            let later =
              make_orphan_room-Fewer fuel one.0 size s.0.counts (omega (arith, enough, less.1))
                fits in
            rw (full, less.0)
              (Fewer-trans p one.0 (make_orphan_room fuel one.0 size) s.0 later.0, later.1)
      ]
]
