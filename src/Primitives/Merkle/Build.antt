-- ===== src/Primitives/Merkle/Build.antt =====
-- What `traverse_and_build` of merkleblock.rs pushes for a node, without the vectors passed along.
use fluxd_rust.Prelude.{
  ℕ, zero, suc, ◌≤◌, ◌≡◌, refl, ap, ◌∙◌, List, [], ◌∷◌, ◌++◌, append-nil, append_assoc, Bool, true,
  false, Bool-cases, inl, inr, length, length-append, ltb, if◌then◌else◌, arith,
}
use fluxd_rust.Primitives.Merkle.{
  calc_tree_width, left_of, right_of, calc_hash, parent_of_match, traverse_and_build,
}

module _ (sha256d : List ℕ → List ℕ) (n : ℕ) (txids : List (List ℕ)) (matches : List Bool) where
  abbrev pub has_right : ℕ → ℕ → Bool
  has_right height pos = ltb (right_of pos) (calc_tree_width n height)

  abbrev pub is_parent : ℕ → ℕ → Bool
  is_parent height pos = parent_of_match sha256d n txids matches height pos

  abbrev pub hash_of : ℕ → ℕ → List ℕ
  hash_of height pos = calc_hash sha256d n txids height pos

  unfoldable pub node_bits : ℕ → ℕ → List Bool
  node_bits zero pos = is_parent zero pos ∷ []
  node_bits (suc height) pos =
      let left = node_bits height (left_of pos) in
      let right = node_bits height (right_of pos) in
      is_parent (suc height) pos
      ∷ (if is_parent (suc height) pos
          then left ++ (if has_right height pos then right else [])
          else [])

  unfoldable pub node_hashes : ℕ → ℕ → List (List ℕ)
  node_hashes zero pos = hash_of zero pos ∷ []
  node_hashes (suc height) pos =
      let left = node_hashes height (left_of pos) in
      let right = node_hashes height (right_of pos) in
      if is_parent (suc height) pos
      then left ++ (if has_right height pos then right else [])
      else hash_of (suc height) pos ∷ []

  -- The matched transactions among a node's leaves.
  unfoldable pub node_matches : ℕ → ℕ → List (List ℕ)
  node_matches zero pos = if is_parent zero pos then hash_of zero pos ∷ [] else []
  node_matches (suc height) pos =
      let left = node_matches height (left_of pos) in
      let right = node_matches height (right_of pos) in
      if is_parent (suc height) pos
      then left ++ (if has_right height pos then right else [])
      else []

  pub build-node :
      (height pos : ℕ) (bits : List Bool) (hashes : List (List ℕ))
      → traverse_and_build sha256d n txids matches height pos (bits, hashes)
        ≡ (bits ++ node_bits height pos, hashes ++ node_hashes height pos)
  unfolding traverse_and_build node_bits node_hashes
  build-node zero pos bits hashes = refl
  build-node (suc height) pos bits hashes = elim (Bool-cases (is_parent (suc height) pos)) [
    | inr stop ↦ rw stop
    | inl split ↦
        let left = build-node height (left_of pos) (bits ++ (true ∷ [])) hashes in
        elim (Bool-cases (has_right height pos)) [
          | inl two ↦
              rw
                (
                  split,
                  two,
                  left,
                  build-node height (right_of pos)
                      ((bits ++ (true ∷ [])) ++ node_bits height (left_of pos))
                      (hashes ++ node_hashes height (left_of pos)),
                )
                (λ i. (
                  (append_assoc (bits ++ (true ∷ [])) (node_bits height (left_of pos))
                          (node_bits height (right_of pos))
                        ∙ append_assoc bits (true ∷ [])
                            (node_bits height (left_of pos) ++ node_bits height (right_of pos)))
                      i,
                  append_assoc hashes (node_hashes height (left_of pos))
                      (node_hashes height (right_of pos)) i,
                ))
          | inr one ↦
              rw (split, one, left, append-nil, append-nil)
                (λ i. (
                  append_assoc bits (true ∷ []) (node_bits height (left_of pos)) i,
                  hashes ++ node_hashes height (left_of pos),
                ))
        ]
  ]

  -- A node has at most as many hashes as bits, and at least one.
  pub hashes-le-bits :
      (height pos : ℕ) → length (node_hashes height pos) ≤ length (node_bits height pos)
  unfolding node_bits node_hashes
  hashes-le-bits zero pos = omega arith
  hashes-le-bits (suc height) pos = elim (Bool-cases (is_parent (suc height) pos)) [
    | inr stop ↦ rw stop (omega arith)
    | inl split ↦ elim (Bool-cases (has_right height pos)) [
      | inl two ↦
          rw (split, two)
            (omega (
              arith,
              length-append {0} (node_hashes height (left_of pos))
                  (node_hashes height (right_of pos)),
              length-append {0} (node_bits height (left_of pos)) (node_bits height (right_of pos)),
              hashes-le-bits height (left_of pos),
              hashes-le-bits height (right_of pos),
            ))
      | inr one ↦
          rw (split, one, append-nil, append-nil)
            (omega (arith, hashes-le-bits height (left_of pos)))
    ]
  ]

  -- A node's bits, hashes and matches, by what the code finds there.
  pub node_stop :
      (height pos : ℕ)
      → is_parent (suc height) pos ≡ false
      → (node_bits (suc height) pos ≡ false ∷ [])
        × (node_hashes (suc height) pos ≡ hash_of (suc height) pos ∷ [])
        × (node_matches (suc height) pos ≡ [])
  unfolding node_bits node_hashes node_matches
  node_stop height pos stop = (rw stop refl, rw stop refl, rw stop refl)

  pub node_two :
      (height pos : ℕ)
      → is_parent (suc height) pos ≡ true
      → has_right height pos ≡ true
      → (node_bits (suc height) pos
          ≡ true ∷ (node_bits height (left_of pos) ++ node_bits height (right_of pos)))
        × (node_hashes (suc height) pos
            ≡ node_hashes height (left_of pos) ++ node_hashes height (right_of pos))
        × (node_matches (suc height) pos
            ≡ node_matches height (left_of pos) ++ node_matches height (right_of pos))
  unfolding node_bits node_hashes node_matches
  node_two height pos split two = (rw (split, two) refl, rw (split, two) refl, rw (split, two) refl)

  pub node_one :
      (height pos : ℕ)
      → is_parent (suc height) pos ≡ true
      → has_right height pos ≡ false
      → (node_bits (suc height) pos ≡ true ∷ node_bits height (left_of pos))
        × (node_hashes (suc height) pos ≡ node_hashes height (left_of pos))
        × (node_matches (suc height) pos ≡ node_matches height (left_of pos))
  unfolding node_bits node_hashes node_matches
  node_one height pos split one = (
    rw (split, one) (ap (λ bs. true ∷ bs) (append-nil (node_bits height (left_of pos)))),
    rw (split, one) (append-nil (node_hashes height (left_of pos))),
    rw (split, one) (append-nil (node_matches height (left_of pos))),
  )
