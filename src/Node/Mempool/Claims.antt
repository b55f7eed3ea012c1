-- ===== src/Node/Mempool/Claims.antt =====
-- A table of mempool.rs from what the transactions claim (outpoints, nullifiers) to the transaction
-- that claims it, against the transactions themselves.
use fluxd_rust.Prelude.{
  ◌≡◌, ◌≢◌, ◌⊎◌, refl, sym, ap, ◌∙◌, List, [], ◌∷◌, true, false, Bool-cases, inl, inr, Option, none,
  some, if◌then◌else◌, arith,
}
use fluxd_rust.Prelude.HashMap.{
  Key, contains, find, insert, erase, same_refl, same_apart, same_or, find-erase, find-erase_same,
  find-insert, find-insert_same,
}
use fluxd_rust.Storage.Memory.{same_bytes}
use fluxd_rust.Storage.Memory.Lookup.{same_bytes-eq, same_bytes_refl}
use fluxd_rust.Node.Mempool.{Hash256, hash_key, claim_all, is_claimed_by, release_all}

module _ {K : Type 0} ⦃key : Key K⦄ where
  pub contains_cons :
      (k x : K) (xs : List K) → contains (x ∷ xs) k ≡ true → (k ≡ x) ⊎ (contains xs k ≡ true)
  unfolding contains
  contains_cons k x xs h = elim (Bool-cases (key.same k x)) [
    | inl same ↦ inl ((key.same_iff k x).0 same)
    | inr other ↦ inr (rw other at h)
  ]

  pub contains_behind : (k x : K) (xs : List K) → contains xs k ≡ true → contains (x ∷ xs) k ≡ true
  unfolding contains
  contains_behind k x xs h = ground (arith, h)

  contains_head : (k : K) (xs : List K) → contains (k ∷ xs) k ≡ true
  unfolding contains
  contains_head k xs = rw (same_refl k) refl

  -- A claim keeps what was there, but for the keys claimed.
  pub claim_all-owner :
      (claims : List K) (txid : Hash256) (table : List (K × Hash256)) (k : K) (t : Hash256)
      → find (claim_all claims txid table) k ≡ some t
      → ((t ≡ txid) × (contains claims k ≡ true)) ⊎ (find table k ≡ some t)
  unfolding claim_all
  claim_all-owner [] txid table k t h = inr h
  claim_all-owner (c ∷ claims) txid table k t h =
      elim (claim_all-owner claims txid (insert c txid table) k t h) [
        | inl mine ↦ inl (mine.0, contains_behind k c claims mine.1)
        | inr before ↦ elim (same_or k c) [
          | inl same ↦
              let there : find (insert c txid table) c ≡ some t =
                ap (find (insert c txid table)) (sym same) ∙ before in
              let mine = find-insert_same c txid table in inl (cc, rw same (contains_head c claims))
          | inr apart ↦ inr (sym (find-insert c k txid table apart) ∙ before)
        ]
      ]

  pub claim_all_apart :
      (claims : List K) (txid : Hash256) (table : List (K × Hash256)) (k : K)
      → contains claims k ≡ false
      → find (claim_all claims txid table) k ≡ find table k
  unfolding claim_all contains
  claim_all_apart [] txid table k h = refl
  claim_all_apart (c ∷ claims) txid table k h = elim (same_or k c) [
    | inl same ↦ let s : key.same k c ≡ true = (key.same_iff k c).1 same in absurd (no_hit s)
    | inr apart ↦
        claim_all_apart claims txid (insert c txid table) k (rw (same_apart k c apart) at h)
        ∙ find-insert c k txid table apart
  ]
    where
      no_hit : key.same k c ≡ true → ⊥
      no_hit s = ground (arith, h)

  pub claim_all-held :
      (claims : List K) (txid : Hash256) (table : List (K × Hash256)) (k : K)
      → contains claims k ≡ true
      → find (claim_all claims txid table) k ≡ some txid
  unfolding claim_all contains
  claim_all-held [] txid table k h = absurd cc
  claim_all-held (c ∷ claims) txid table k h = elim (Bool-cases (contains claims k)) [
    | inl later ↦ claim_all-held claims txid (insert c txid table) k later
    | inr never ↦
        claim_all_apart claims txid (insert c txid table) k never
        ∙ first never (contains_cons k c claims h)
  ]
    where
      first :
          contains claims k ≡ false
          → (k ≡ c) ⊎ (contains claims k ≡ true)
          → find (insert c txid table) k ≡ some txid
      first never (inl same) = rw same (find-insert_same c txid table)
      first never (inr later) = absurd cc

  abbrev release_one : K → Hash256 → List (K × Hash256) → List (K × Hash256)
  release_one c txid table = if is_claimed_by (find table c) txid then erase c table else table

  owned :
      (table : List (K × Hash256)) (c : K) (txid : Hash256)
      → is_claimed_by (find table c) txid ≡ true
      → find table c ≡ some txid
  unfolding is_claimed_by
  owned table c txid h = go (find table c) refl
    where
      go : (o : Option Hash256) → find table c ≡ o → find table c ≡ some txid
      go none e = absurd (absent e)
        where
          absent : find table c ≡ none → ⊥
          absent e = let n : is_claimed_by (find table c) txid ≡ false = rw e refl in cc
      go (some t) e =
          let s : same_bytes t txid ≡ true = rw e at h in
          e ∙ ap (λ u. some u) (same_bytes-eq t txid s)

  not_owned :
      (table : List (K × Hash256)) (c : K) (txid : Hash256)
      → is_claimed_by (find table c) txid ≡ false
      → find table c ≢ some txid
  unfolding is_claimed_by
  not_owned table c txid h e =
      let mine : is_claimed_by (find table c) txid ≡ true = rw e (same_bytes_refl txid) in absurd cc

  release_one-owner :
      (c k : K) (txid t : Hash256) (table : List (K × Hash256))
      → find (release_one c txid table) k ≡ some t
      → (find table k ≡ some t) × (k ≡ c → t ≢ txid)
  release_one-owner c k txid t table h = elim (Bool-cases (is_claimed_by (find table c) txid)) [
    | inr theirs ↦
        let h' : find table k ≡ some t = rw theirs at h in
        (
          h',
          λ same e.
              not_owned table c txid theirs (ap (find table) (sym same) ∙ h' ∙ ap (λ u. some u) e),
        )
    | inl mine ↦
        let h' : find (erase c table) k ≡ some t = rw mine at h in
        elim (same_or k c) [
          | inl same ↦
              let gone : find (erase c table) k ≡ none = rw same (find-erase_same c table) in
              absurd cc
          | inr apart ↦ (sym (find-erase c k table apart) ∙ h', λ same. absurd (apart same))
        ]
  ]

  release_one-held :
      (c k : K) (txid t : Hash256) (table : List (K × Hash256))
      → find table k ≡ some t
      → t ≢ txid
      → find (release_one c txid table) k ≡ some t
  release_one-held c k txid t table h other =
      elim (Bool-cases (is_claimed_by (find table c) txid)) [
        | inr theirs ↦ rw theirs h
        | inl mine ↦ elim (same_or k c) [
          | inl same ↦
              let at_c = owned table c txid mine in
              let at_k : find table c ≡ some t = ap (find table) (sym same) ∙ h in absurd (other cc)
          | inr apart ↦ rw mine (find-erase c k table apart ∙ h)
        ]
      ]

  pub release_all-owner :
      (claims : List K) (txid : Hash256) (table : List (K × Hash256)) (k : K) (t : Hash256)
      → find (release_all claims txid table) k ≡ some t
      → (find table k ≡ some t) × (contains claims k ≡ true → t ≢ txid)
  unfolding release_all contains
  release_all-owner [] txid table k t h = (h, λ c. absurd cc)
  release_all-owner (c ∷ claims) txid table k t h =
      let later = release_all-owner claims txid (release_one c txid table) k t h in
      let one = release_one-owner c k txid t table later.0 in
      (
        one.0,
        λ held. elim (contains_cons k c claims held) [
          | inl same ↦ one.1 same
          | inr deep ↦ later.1 deep
        ],
      )

  pub release_all-held :
      (claims : List K) (txid : Hash256) (table : List (K × Hash256)) (k : K) (t : Hash256)
      → find table k ≡ some t
      → t ≢ txid
      → find (release_all claims txid table) k ≡ some t
  unfolding release_all
  release_all-held [] txid table k t h other = h
  release_all-held (c ∷ claims) txid table k t h other =
      release_all-held claims txid (release_one c txid table) k t
        (release_one-held c k txid t table h other) other
