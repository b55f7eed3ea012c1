-- ===== src/Prelude/HashMap.antt =====
-- `HashMap` of Rust as an association list: an insertion replaces, and no order is relied on.
use fluxd_rust.Prelude.{
  ℕ, ◌+◌, ◌≡◌, ◌≢◌, ◌↔◌, ◌⊎◌, refl, sym, ap, ◌∙◌, List, [], ◌∷◌, Bool, true, false, Bool-cases, inl,
  inr, Option, none, some, if◌then◌else◌, arith,
}

-- The keys that a table is looked up by.
pub record Key (K : Type 0) : Type 0 where
  pub same : K → K → Bool
  pub same_iff : (a b : K) → (same a b ≡ true) ↔ (a ≡ b)

module _ {K : Type 0} ⦃key : Key K⦄ where
  pub same_refl : (a : K) → key.same a a ≡ true
  same_refl a = (key.same_iff a a).1 refl

  pub same_apart : (a b : K) → a ≢ b → key.same a b ≡ false
  same_apart a b apart = elim (Bool-cases (key.same a b)) [
    | inl s ↦ absurd (apart ((key.same_iff a b).0 s))
    | inr other ↦ other
  ]

  -- Two keys are equal or apart.
  pub same_or : (a b : K) → (a ≡ b) ⊎ (a ≢ b)
  same_or a b = elim (Bool-cases (key.same a b)) [
    | inl s ↦ inl ((key.same_iff a b).0 s)
    | inr other ↦ inr (λ e. let s : key.same a b ≡ true = (key.same_iff a b).1 e in absurd cc)
  ]

  -- `contains` on a vector.
  unfoldable pub contains : List K → K → Bool
  contains [] k = false
  contains (x ∷ xs) k = if key.same k x then true else contains xs k

  -- `retain(|x| x != k)`
  unfoldable pub without : K → List K → List K
  without k [] = []
  without k (x ∷ xs) = let rest = without k xs in if key.same k x then rest else x ∷ rest

  module _ {V : Type 0} where
    unfoldable pub find : List (K × V) → K → Option V
    find [] k = none
    find ((k', v) ∷ m) k = if key.same k k' then some v else find m k

    unfoldable pub erase : K → List (K × V) → List (K × V)
    erase k [] = []
    erase k ((k', v) ∷ m) = let rest = erase k m in if key.same k k' then rest else (k', v) ∷ rest

    unfoldable pub insert : K → V → List (K × V) → List (K × V)
    insert k v m = (k, v) ∷ erase k m

    pub find-erase_same : (k : K) (m : List (K × V)) → find (erase k m) k ≡ none
    unfolding find erase
    find-erase_same k [] = refl
    find-erase_same k ((k', v) ∷ m) = ground (arith, find-erase_same k m)

    pub find-erase : (k o : K) (m : List (K × V)) → o ≢ k → find (erase k m) o ≡ find m o
    unfolding find erase
    find-erase k o [] apart = refl
    find-erase k o ((k', v) ∷ m) apart = elim (Bool-cases (key.same k k')) [
      | inr kept ↦ ground (arith, find-erase k o m apart)
      | inl gone ↦
          let e : k ≡ k' = (key.same_iff k k').0 gone in
          let other : key.same o k' ≡ false = rw (sym e) (same_apart o k apart) in
          rw (gone, other) (find-erase k o m apart)
    ]

    pub find-insert_same : (k : K) (v : V) (m : List (K × V)) → find (insert k v m) k ≡ some v
    unfolding find insert
    find-insert_same k v m = rw (same_refl k) refl

    pub find-insert :
        (k o : K) (v : V) (m : List (K × V)) → o ≢ k → find (insert k v m) o ≡ find m o
    unfolding find insert
    find-insert k o v m apart = rw (same_apart o k apart) (find-erase k o m apart)

    pub erase_absent : (k : K) (m : List (K × V)) → find m k ≡ none → erase k m ≡ m
    unfolding find erase
    erase_absent k [] h = refl
    erase_absent k ((k', v) ∷ m) h = elim (Bool-cases (key.same k k')) [
      | inl same ↦ let there : some v ≡ none = rw same at h in absurd cc
      | inr other ↦ rw other (ap (λ rest. (k', v) ∷ rest) (erase_absent k m (rw other at h)))
    ]

    -- No key stands twice.
    unfoldable pub Unique : List (K × V) → Type 0
    Unique [] = Unit {0}
    Unique ((k, v) ∷ m) = (find m k ≡ none) × Unique m

    pub Unique-erase : (k : K) (m : List (K × V)) → Unique m → Unique (erase k m)
    unfolding Unique erase
    Unique-erase k [] u = tt
    Unique-erase k ((k', v) ∷ m) u = elim (Bool-cases (key.same k k')) [
      | inl same ↦ rw same (Unique-erase k m u.1)
      | inr other ↦ rw other (find-erase_none, Unique-erase k m u.1)
    ]
      where
        find-erase_none : find (erase k m) k' ≡ none
        find-erase_none = elim (same_or k' k) [
          | inl same ↦ rw same (find-erase_same k m)
          | inr apart ↦ find-erase k k' m apart ∙ u.0
        ]

    pub Unique-insert : (k : K) (v : V) (m : List (K × V)) → Unique m → Unique (insert k v m)
    unfolding Unique insert
    Unique-insert k v m u = (find-erase_same k m, Unique-erase k m u)

    -- The sum of what the values weigh.
    module _ (weight : V → ℕ) where
      unfoldable pub sum_of : List (K × V) → ℕ
      sum_of [] = 0
      sum_of ((k, v) ∷ m) = weight v + sum_of m

      pub sum_of-erase :
          (k : K) (v : V) (m : List (K × V))
          → Unique m
          → find m k ≡ some v
          → sum_of (erase k m) + weight v ≡ sum_of m
      unfolding find erase sum_of Unique
      sum_of-erase k v [] u h = absurd cc
      sum_of-erase k v ((k', v') ∷ m) u h = elim (Bool-cases (key.same k k')) [
        | inl same ↦
            let e : some v' ≡ some v = rw same at h in
            let weights : weight v' ≡ weight v = ap weight cc in
            let absent : find m k ≡ none = ap (find m) ((key.same_iff k k').0 same) ∙ u.0 in
            rw (same, erase_absent k m absent) (omega (arith, weights))
        | inr other ↦ rw other (omega (arith, sum_of-erase k v m u.1 (rw other at h)))
      ]

      -- Putting a value in the place of one that weighs the same.
      pub sum_of-insert :
          (k : K) (v w : V) (m : List (K × V))
          → Unique m
          → find m k ≡ some v
          → weight w ≡ weight v
          → sum_of (insert k w m) ≡ sum_of m
      unfolding sum_of insert
      sum_of-insert k v w m u h same = omega (arith, same, sum_of-erase k v m u h)
