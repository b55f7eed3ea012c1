-- ===== src/Node/VerifyChain/Levels.antt =====
-- The layers of the Merkle root of validation.rs are the levels of the tree of merkleblock.rs.
use native.Mathlib.Nat.{pow-suc, add-div_right, div-div-eq-div-mul}
use fluxd_rust.Prelude.{
  ℕ, zero, suc, ◌+◌, ◌-◌, ◌*◌, ◌/◌, ◌^◌, ◌≤◌, ◌<◌, ◌≡◌, refl, sym, ap, ◌∙◌, List, [], ◌∷◌, ◌++◌,
  Bool, true, false, ◌||◌, Bool-cases, inl, inr, length, get_or, ltb, ltb→lt, if◌then◌else◌, arith,
}
use fluxd_rust.Primitives.Merkle.{
  zero_hash, max_transactions, calc_tree_height, calc_hash, merkle_hash_pair, height_loop,
  calc_tree_width,
}
use fluxd_rust.Primitives.Merkle.Ranges.{
  pow_bounds, calc_tree_width_lem, lt-calc_tree_width, left_of_lem, right_of_lem,
  calc_tree_height_lem,
}
use fluxd_rust.Chainstate.MerkleRoot.{next_layer, layer_loop, merkle_root}

-- Each level has half the nodes of the one below it, rounded up.
width_suc :
    (n height : ℕ)
    → n ≤ max_transactions
    → suc height ≤ 16
    → calc_tree_width n (suc height) ≡ (calc_tree_width n height + 1) / 2
width_suc n height few low =
    let b = pow_bounds height (omega (arith, low)) in
    let m = 2 ^ height in
    let x : (n + (m - 1)) + m ≡ n + (m * 2 - 1) = omega (arith, b) in
    calc_tree_width_lem n (suc height) few low
    ∙ (λ i. (n + (pow-suc 2 height i - 1)) / pow-suc 2 height i)
    ∙ ap (λ y. y / (m * 2)) (sym x)
    ∙ sym (div-div-eq-div-mul ((n + (m - 1)) + m) m 2)
    ∙ ap (λ y. y / 2)
        (add-div_right (n + (m - 1)) b.0
          ∙ ap (λ w. w + 1) (sym (calc_tree_width_lem n height few (omega (arith, low)))))

module _ (sha256d : List ℕ → List ℕ) where
  length-next_layer :
      (layer : List (List ℕ)) → length (next_layer sha256d layer).0 ≡ (length layer + 1) / 2
  unfolding next_layer
  length-next_layer [] = refl
  length-next_layer (x ∷ []) = refl
  length-next_layer (x ∷ y ∷ []) = refl
  length-next_layer (x ∷ y ∷ z ∷ rest) = omega (arith, length-next_layer (z ∷ rest))

  -- The hash behind the first of a pair, which is that one itself on the end of an odd layer.
  abbrev partner : List (List ℕ) → ℕ → List ℕ
  partner layer k =
      if ltb (k + 1) (length layer)
      then get_or layer (k + 1) zero_hash
      else get_or layer k zero_hash

  partner_step :
      (x y : List ℕ) (layer : List (List ℕ)) (k : ℕ)
      → partner (x ∷ y ∷ layer) (suc (suc k)) ≡ partner layer k
  partner_step x y layer k =
      let two : suc (suc k) + 1 ≡ suc (suc (k + 1)) = omega arith in
      let test : ltb (suc (suc (k + 1))) (suc (suc (length layer))) ≡ ltb (k + 1) (length layer) =
        ground arith in
      rw (two, test) refl

  get_or-next_layer :
      (layer : List (List ℕ)) (p : ℕ)
      → p * 2 < length layer
      → get_or (next_layer sha256d layer).0 p zero_hash
        ≡ sha256d (get_or layer (p * 2) zero_hash ++ partner layer (p * 2))
  unfolding next_layer
  get_or-next_layer [] p h = absurd (omega arith)
  get_or-next_layer (x ∷ []) zero h = refl
  get_or-next_layer (x ∷ []) (suc p) h = absurd (omega arith)
  get_or-next_layer (x ∷ y ∷ []) zero h = refl
  get_or-next_layer (x ∷ y ∷ []) (suc p) h = absurd (omega arith)
  get_or-next_layer (x ∷ y ∷ z ∷ rest) zero h =
      let more : ltb 1 (suc (suc (suc (length rest)))) ≡ true = ground arith in rw more refl
  get_or-next_layer (x ∷ y ∷ z ∷ rest) (suc p) h =
      let two : suc p * 2 ≡ suc (suc (p * 2)) = omega arith in
      rw (two, partner_step x y (z ∷ rest) (p * 2)) (get_or-next_layer (z ∷ rest) p (omega arith))

  module _ (txids : List (List ℕ)) (few : length txids ≤ max_transactions) where
    abbrev n : ℕ
    n = length txids

    unfoldable layer_at : ℕ → List (List ℕ)
    layer_at zero = txids
    layer_at (suc height) = (next_layer sha256d (layer_at height)).0

    length-layer_at :
        (height : ℕ) → height ≤ 16 → length (layer_at height) ≡ calc_tree_width n height
    unfolding layer_at
    length-layer_at zero low = ground (
      arith,
      lt-calc_tree_width n 0 n few low,
      lt-calc_tree_width n 0 (calc_tree_width n 0) few low,
      lt-calc_tree_width n 0 (calc_tree_width n 0 - 1) few low,
    )
    length-layer_at (suc height) low =
        length-next_layer (layer_at height)
        ∙ ap (λ k. (k + 1) / 2) (length-layer_at height (omega arith))
        ∙ sym (width_suc n height few low)

    get_or-layer_at :
        (height pos : ℕ)
        → height ≤ 16
        → pos < calc_tree_width n height
        → get_or (layer_at height) pos zero_hash ≡ calc_hash sha256d n txids height pos
    unfolding layer_at calc_hash merkle_hash_pair
    get_or-layer_at zero pos low inside = refl
    get_or-layer_at (suc height) pos low inside =
        let within = (lt-calc_tree_width n (suc height) pos few low).0 inside in
        let len = length-layer_at height (omega arith) in
        let first : pos * 2 < calc_tree_width n height =
          omega (arith, inside, width_suc n height few low) in
        let here = get_or-layer_at height (pos * 2) (omega arith) first in
        get_or-next_layer (layer_at height) pos (omega (arith, len, first))
        ∙ rw
            (
              right_of_lem n few height pos low within,
              left_of_lem n few height pos low within,
              len,
              here,
            )
            (ap (λ r. sha256d (calc_hash sha256d n txids height (pos * 2) ++ r))
              (elim (Bool-cases (ltb (pos * 2 + 1) (calc_tree_width n height))) [
                | inr alone ↦ rw alone refl
                | inl two ↦ rw two (
                    get_or-layer_at height (pos * 2 + 1) (omega arith)
                      (ltb→lt (pos * 2 + 1) (calc_tree_width n height) two))
              ]))

    loop_done :
        (fuel : ℕ) (layer : List (List ℕ)) (mutated : Bool)
        → length layer ≤ 1
        → layer_loop sha256d fuel layer mutated ≡ (get_or layer 0 zero_hash, mutated)
    unfolding layer_loop
    loop_done zero layer mutated one = refl
    loop_done (suc fuel) layer mutated one =
        let stop : ltb 1 (length layer) ≡ false = ground arith in rw stop refl

    narrow : calc_tree_width n 16 ≤ 1
    narrow = ground (arith, lt-calc_tree_width n 16 1 few (omega arith))

    -- The loop over the layers and the loop over the heights make the same rounds.
    same_rounds :
        (rounds fuel height : ℕ) (mutated : Bool)
        → length (layer_at height) ≤ fuel
        → height ≤ 16
        → 16 ≤ height + rounds
        → (layer_loop sha256d fuel (layer_at height) mutated).0
          ≡ get_or (layer_at (height_loop rounds n height)) 0 zero_hash
    unfolding height_loop layer_at layer_loop
    same_rounds zero fuel height mutated enough low far =
        let top : height ≡ 16 = omega arith in
        let one : length (layer_at height) ≤ 1 =
          omega (arith, length-layer_at height low, ap (calc_tree_width n) top, narrow) in
        ap (λ r. r.0) (loop_done fuel (layer_at height) mutated one)
    same_rounds (suc rounds) zero height mutated enough low far =
        let stop : ltb 1 (calc_tree_width n height) ≡ false =
          ground (arith, length-layer_at height low) in
        rw stop refl
    same_rounds (suc rounds) (suc fuel) height mutated enough low far =
        let len = length-layer_at height low in
        elim (Bool-cases (ltb 1 (calc_tree_width n height))) [
          | inr stop ↦ rw (len, stop) refl
          | inl more ↦
              let below : height < 16 = ground (arith, narrow, ap (calc_tree_width n), more) in
              let next : height + 1 ≡ suc height = omega arith in
              let shorter : length (layer_at (suc height)) ≤ fuel = omega (
                arith,
                enough,
                length-next_layer (layer_at height),
                ltb→lt 1 (calc_tree_width n height) more,
                len,
              ) in
              rw (len, more, next)
                (same_rounds rounds fuel (suc height)
                  (mutated || (next_layer sha256d (layer_at height)).1) shorter (omega arith)
                  (omega arith))
        ]

    -- For a block of at least one and at most `max_transactions` transactions, the root that validation
    -- compares with the header is the one that a partial Merkle tree of the same transactions gives.
    pub merkle_root-calc_hash :
        0 < length txids
        → (merkle_root sha256d txids).0 ≡ calc_hash sha256d n txids (calc_tree_height n) 0
    unfolding merkle_root calc_tree_height layer_at
    merkle_root-calc_hash some_tx =
        let top = calc_tree_height_lem n few in
        same_rounds 64 n 0 false (omega arith) (omega arith) (omega arith)
        ∙ get_or-layer_at (calc_tree_height n) 0 top.0
            ((lt-calc_tree_width n (calc_tree_height n) 0 few top.0).1 (omega (arith, some_tx)))
