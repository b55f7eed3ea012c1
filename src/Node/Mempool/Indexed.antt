-- ===== src/Node/Mempool/Indexed.antt =====
-- A table of mempool.rs that agrees with the transactions of the pool, and what keeps it so.
use fluxd_rust.Prelude.{
  ◌≡◌, ◌≢◌, refl, sym, ap, ◌∙◌, List, [], ◌∷◌, true, false, Bool-cases, or-false, inl, inr, Option,
  none, some, if◌then◌else◌,
}
use fluxd_rust.Prelude.HashMap.{Key, contains, find, same_refl, same_apart, same_or}
use fluxd_rust.Storage.Memory.{same_bytes}
use fluxd_rust.Node.Mempool.{Hash256, hash_key, is_some, claim_all, release_all, has_conflict}
use fluxd_rust.Node.Mempool.Claims.{
  claim_all-owner, claim_all_apart, claim_all-held, release_all-owner, release_all-held,
  contains_cons,
}

-- A transaction set or taken out.
abbrev pub with_entry {ℓ} :
    {E : Type ℓ} → Hash256 → Option E → (Hash256 → Option E) → Hash256 → Option E
with_entry txid value look t = if same_bytes t txid then value else look t

module _ {E : Type 0} where
  pub with_same :
      (txid : Hash256) (value : Option E) (look : Hash256 → Option E)
      → with_entry txid value look txid ≡ value
  with_same txid value look = rw (same_refl txid) refl

  pub with_apart :
      (txid t : Hash256) (value : Option E) (look : Hash256 → Option E)
      → t ≢ txid
      → with_entry txid value look t ≡ look t
  with_apart txid t value look apart = rw (same_apart t txid apart) refl

  pub with_none :
      (txid t : Hash256) (look : Hash256 → Option E) (e : E)
      → with_entry txid none look t ≡ some e
      → (t ≢ txid) × (look t ≡ some e)
  with_none txid t look e h = elim (same_or t txid) [
    | inl same ↦
        let gone : with_entry txid none look t ≡ none = rw same (with_same txid none look) in
        absurd cc
    | inr apart ↦ (apart, sym (with_apart txid t none look apart) ∙ h)
  ]

  pub with_known :
      (txid : Hash256) (value : Option E) (look : Hash256 → Option E)
      → look txid ≡ value
      → with_entry txid value look ≡ look
  with_known txid value look here i t =
      elim (same_or t txid) as (λ x. with_entry txid value look t ≡ look t) [
        | inl same ↦ rw (same, with_same txid value look) (sym here)
        | inr apart ↦ with_apart txid t value look apart
      ]
        i

  module _ {K : Type 0} ⦃key : Key K⦄ (claims : E → List K) where
    -- Each claim in the table is one of its owner's, and each transaction owns what it claims.
    pub record Indexed (look : Hash256 → Option E) (table : List (K × Hash256)) : Type 0 where
      pub owner :
          (k : K) (t : Hash256)
          → find table k ≡ some t
          → (e : E) × (look t ≡ some e) × (contains (claims e) k ≡ true)
      pub held :
          (t : Hash256) (e : E) (k : K)
          → look t ≡ some e
          → contains (claims e) k ≡ true
          → find table k ≡ some t

    pub Indexed-release_all :
        (look : Hash256 → Option E) (table : List (K × Hash256)) (txid : Hash256) (e : E)
        → look txid ≡ some e
        → Indexed look table
        → Indexed (with_entry txid none look) (release_all (claims e) txid table)
    Indexed-release_all look table txid e here i = record { owner = owner'; held = held' }
      where
        owner' :
            (k : K) (t : Hash256)
            → find (release_all (claims e) txid table) k ≡ some t
            → (e' : E) × (with_entry txid none look t ≡ some e') × (contains (claims e') k ≡ true)
        owner' k t h =
            let r = release_all-owner (claims e) txid table k t h in
            let o = i.owner k t r.0 in
            elim (same_or t txid) [
              | inr apart ↦ (o.0, with_apart txid t none look apart ∙ o.1, o.2)
              | inl same ↦
                  let there : some e ≡ some o.0 = sym here ∙ ap look (sym same) ∙ o.1 in
                  let e_same : e ≡ o.0 = cc in absurd (r.1 (rw e_same o.2) same)
            ]

        held' :
            (t : Hash256) (e' : E) (k : K)
            → with_entry txid none look t ≡ some e'
            → contains (claims e') k ≡ true
            → find (release_all (claims e) txid table) k ≡ some t
        held' t e' k there c = elim (same_or t txid) [
          | inl same ↦
              let gone : with_entry txid none look t ≡ none = rw same (with_same txid none look) in
              absurd cc
          | inr apart ↦
              release_all-held (claims e) txid table k t
                (i.held t e' k (sym (with_apart txid t none look apart) ∙ there) c) apart
        ]

    absent : (o : Option Hash256) → is_some o ≡ false → o ≡ none
    absent none h = refl
    absent (some t) h = absurd cc

    has_conflict-false :
        (ks : List K) (table : List (K × Hash256)) (k : K)
        → has_conflict ks table ≡ false
        → contains ks k ≡ true
        → find table k ≡ none
    unfolding has_conflict contains
    has_conflict-false [] table k free c = absurd cc
    has_conflict-false (x ∷ ks) table k free c =
        let both = or-false (is_some (find table x)) (has_conflict ks table) free in
        elim (contains_cons k x ks c) [
          | inl same ↦ ap (find table) same ∙ absent (find table x) both.0
          | inr later ↦ has_conflict-false ks table k both.1 later
        ]

    pub Indexed-claim_all :
        (look : Hash256 → Option E) (table : List (K × Hash256)) (txid : Hash256) (e : E)
        → look txid ≡ none
        → has_conflict (claims e) table ≡ false
        → Indexed look table
        → Indexed (with_entry txid (some e) look) (claim_all (claims e) txid table)
    Indexed-claim_all look table txid e new free i = record { owner = owner'; held = held' }
      where
        owner' :
            (k : K) (t : Hash256)
            → find (claim_all (claims e) txid table) k ≡ some t
            → (e' : E) × (with_entry txid (some e) look t ≡ some e')
              × (contains (claims e') k ≡ true)
        owner' k t h = elim (claim_all-owner (claims e) txid table k t h) [
          | inl mine ↦ (e, rw mine.0 (with_same txid (some e) look), mine.1)
          | inr before ↦
              let o = i.owner k t before in
              let apart : t ≢ txid =
                λ same. let there : some o.0 ≡ none = sym o.1 ∙ ap look same ∙ new in cc in
              (o.0, with_apart txid t (some e) look apart ∙ o.1, o.2)
        ]

        held' :
            (t : Hash256) (e' : E) (k : K)
            → with_entry txid (some e) look t ≡ some e'
            → contains (claims e') k ≡ true
            → find (claim_all (claims e) txid table) k ≡ some t
        held' t e' k there c = elim (same_or t txid) [
          | inl same ↦
              let here : some e ≡ some e' =
                sym (with_same txid (some e) look)
                ∙ ap (with_entry txid (some e) look) (sym same)
                ∙ there in
              let e_same : e ≡ e' = cc in
              claim_all-held (claims e) txid table k (rw e_same c) ∙ ap (λ u. some u) (sym same)
          | inr apart ↦
              let before = i.held t e' k (sym (with_apart txid t (some e) look apart) ∙ there) c in
              claim_all_apart (claims e) txid table k (not_mine before) ∙ before
        ]
          where
            not_mine : find table k ≡ some t → contains (claims e) k ≡ false
            not_mine before = elim (Bool-cases (contains (claims e) k)) [
              | inr apart ↦ apart
              | inl taken ↦
                  let none_there = has_conflict-false (claims e) table k free taken in absurd cc
            ]
