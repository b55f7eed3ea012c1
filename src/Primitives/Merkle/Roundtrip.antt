-- ===== src/Primitives/Merkle/Roundtrip.antt =====
-- merkleblock.rs: what `extract_matches` makes of the tree of `from_txids`.
use fluxd_rust.Prelude.{
  ℕ, zero, suc, ◌+◌, ◌*◌, ◌/◌, ◌^◌, ◌==◌, ◌≤◌, ◌<◌, ◌≡◌, refl, sym, ap, ◌∙◌, List, [], ◌∷◌, ◌++◌,
  append-nil, append_assoc, Bool, true, false, ◌||◌, Bool-cases, or-false, inl, inr, length,
  length-append, get_or, ltb, ltb→lt, if◌then◌else◌, some, arith,
}
use native.Mathlib.Nat.{one-le-pow}
use fluxd_rust.Primitives.Merkle.{
  any_match, zero_hash, max_transactions, range_size, calc_hash, left_of, u32_max, calc_tree_height,
  from_txids, extract_matches, right_of, calc_tree_width,
}
use fluxd_rust.Primitives.Merkle.Build.{
  has_right, is_parent, node_bits, node_hashes, node_matches, node_stop, node_two, node_one,
  build-node, hashes-le-bits,
}
use fluxd_rust.Primitives.Merkle.Extract.{NoTwins, extract-node}
use fluxd_rust.Prelude.Result.{ok, ◌>>=◌}
use fluxd_rust.Primitives.Merkle.Ranges.{
  lt-calc_tree_width, calc_tree_height_lem, left_start, right_start, left_end, right_end, whole_end,
}

module _ (txids : List (List ℕ)) (matches : List Bool) where
  abbrev marked : ℕ → List (List ℕ)
  marked start = if get_or matches start false then get_or txids start zero_hash ∷ [] else []

  unfoldable selected : ℕ → ℕ → List (List ℕ)
  selected start zero = []
  selected start (suc count) = marked start ++ selected (start + 1) count

  selected_add :
      (start a b next : ℕ)
      → start + a ≡ next
      → selected start (a + b) ≡ selected start a ++ selected next b
  unfolding selected
  selected_add start zero b next e =
      let same : start ≡ next = omega arith in
      let none_taken : 0 + b ≡ b = omega arith in rw none_taken (ap (λ s. selected s b) same)
  selected_add start (suc a) b next e =
      let one_more : suc a + b ≡ suc (a + b) = omega arith in
      rw one_more (
        ap (λ xs. marked start ++ xs) (selected_add (start + 1) a b next (omega arith))
        ∙ sym (append_assoc (marked start) (selected (start + 1) a) (selected next b)))

  selected_none :
      (start count : ℕ) → any_match matches start count ≡ false → selected start count ≡ []
  unfolding selected any_match
  selected_none start zero h = refl
  selected_none start (suc count) h =
      let both = or-false (get_or matches start false) (any_match matches (start + 1) count) h in
      rw both.0 (selected_none (start + 1) count both.1)

-- The transactions that are marked.
unfoldable pub matched : List (List ℕ) → List Bool → List (List ℕ)
matched [] matches = []
matched (x ∷ txids) [] = []
matched (x ∷ txids) (true ∷ matches) = x ∷ matched txids matches
matched (x ∷ txids) (false ∷ matches) = matched txids matches

-- Behind a first element, everything is one further on.
selected_shift :
    (x : List ℕ) (b : Bool) (txids : List (List ℕ)) (matches : List Bool) (start count : ℕ)
    → selected (x ∷ txids) (b ∷ matches) (suc start) count ≡ selected txids matches start count
unfolding selected
selected_shift x b txids matches start zero = refl
selected_shift x b txids matches start (suc count) =
    let one_on : suc start + 1 ≡ suc (start + 1) = omega arith in
    rw one_on (
      ap (λ xs. marked txids matches start ++ xs)
        (selected_shift x b txids matches (start + 1) count))

selected-matched :
    (txids : List (List ℕ)) (matches : List Bool)
    → length txids ≡ length matches
    → selected txids matches 0 (length txids) ≡ matched txids matches
unfolding selected matched
selected-matched [] [] h = refl
selected-matched [] (b ∷ matches) h = absurd (omega arith)
selected-matched (x ∷ txids) [] h = absurd (omega arith)
selected-matched (x ∷ txids) (true ∷ matches) h =
    ap (λ xs. x ∷ xs)
      (selected_shift x true txids matches 0 (length txids)
        ∙ selected-matched txids matches (omega arith))
selected-matched (x ∷ txids) (false ∷ matches) h =
    selected_shift x false txids matches 0 (length txids)
    ∙ selected-matched txids matches (omega arith)

leaf_case :
    (b : Bool) (x : List ℕ) → (if b || false then x ∷ [] else []) ≡ (if b then x ∷ [] else []) ++ []
leaf_case true x = refl
leaf_case false x = refl

-- A node stands for the leaves of its range: its matches are those of the range, and its hashes are no more.
module _ (sha256d : List ℕ → List ℕ) (n : ℕ) (few : n ≤ max_transactions) (txids : List (List ℕ))
    (matches : List Bool) where
  abbrev size : ℕ → ℕ → ℕ
  size height pos = range_size sha256d n txids height pos

  leaf_range :
      (pos : ℕ)
      → pos < n
      → (node_matches sha256d n txids matches 0 pos ≡ selected txids matches (pos * 1) (size 0 pos))
        × (length (node_hashes sha256d n txids matches 0 pos) ≤ size 0 pos)
  unfolding node_matches node_hashes selected any_match calc_hash
  leaf_range pos inside =
      let one : size 0 pos ≡ 1 = omega (arith, inside) in
      let at : pos * 1 ≡ pos = omega arith in
      rw (one, at) (leaf_case (get_or matches pos false) (get_or txids pos zero_hash), omega arith)

  node_range :
      (height pos : ℕ)
      → height ≤ 16
      → pos * 2 ^ height < n
      → (node_matches sha256d n txids matches height pos
          ≡ selected txids matches (pos * 2 ^ height) (size height pos))
        × (length (node_hashes sha256d n txids matches height pos) ≤ size height pos)
  node_range zero pos low inside = leaf_range pos (omega arith)
  node_range (suc height) pos low inside =
      let L = left_of pos in
      let R = right_of pos in
      let ls = left_start n few height pos low inside in
      let rs = right_start n few height pos low inside in
      let le = left_end n few height pos low inside in
      let re = right_end n few height pos low inside in
      let we = whole_end n few height pos low inside in
      let m_pos = one-le-pow height 2 (omega arith) in
      let left = node_range height L (omega arith) (omega (arith, ls, inside)) in
      let wide = lt-calc_tree_width n height R few (omega arith) in
      elim (Bool-cases (is_parent sha256d n txids matches (suc height) pos)) [
        | inr stop ↦
            let p = node_stop sha256d n txids matches height pos stop in
            rw (p.1, p.2)
              (
                sym (
                    selected_none txids matches (pos * 2 ^ suc height) (size (suc height) pos)
                      stop),
                omega (arith, we, m_pos, inside),
              )
        | inl split ↦ elim (Bool-cases (has_right sha256d n txids matches height pos)) [
          | inl two ↦
              let p = node_two sha256d n txids matches height pos split two in
              let inside' : R * 2 ^ height < n = wide.0 (ltb→lt R (calc_tree_width n height) two) in
              let right = node_range height R (omega arith) inside' in
              let sizes : size height L + size height R ≡ size (suc height) pos =
                omega (arith, ls, rs, le, re, we, inside') in
              (
                p.2
                    ∙ (λ i. left.0 i ++ right.0 i)
                    ∙ sym (
                        selected_add txids matches (L * 2 ^ height) (size height L) (size height R)
                          (R * 2 ^ height) (omega (arith, ls, rs, le, inside')))
                    ∙ (λ i. selected txids matches (ls i) (sizes i)),
                rw p.1 (
                    omega (
                      arith,
                      left.1,
                      right.1,
                      sizes,
                      length-append {0} (node_hashes sha256d n txids matches height L)
                          (node_hashes sha256d n txids matches height R),
                    )),
              )
          | inr one ↦
              let p = node_one sha256d n txids matches height pos split one in
              let outside : n ≤ R * 2 ^ height = ground (arith, wide) in
              let sizes : size height L ≡ size (suc height) pos =
                omega (arith, ls, rs, le, we, outside) in
              (
                p.2 ∙ left.0 ∙ (λ i. selected txids matches (ls i) (sizes i)),
                rw p.1 (omega (arith, left.1, sizes)),
              )
        ]
      ]

-- `n` transactions, the marks and the tree that the code builds of them.
module _ (sha256d : List ℕ → List ℕ) (txids : List (List ℕ)) (matches : List Bool) where
  abbrev n : ℕ
  n = length txids

  abbrev bits : List Bool
  bits = node_bits sha256d n txids matches (calc_tree_height n) 0

  abbrev hashes : List (List ℕ)
  hashes = node_hashes sha256d n txids matches (calc_tree_height n) 0

  from_txids_lem :
      length txids ≡ length matches
      → n ≤ max_transactions
      → from_txids sha256d txids matches
        ≡ ok (record { n_transactions = n; bits = bits; hashes = hashes })
  unfolding from_txids
  from_txids_lem same few =
      let t0 : (length txids == length matches) ≡ true = ground arith in
      let t1 : ltb u32_max (length txids) ≡ false = ground arith in
      rw (t0, t1, build-node sha256d n txids matches (calc_tree_height n) 0 [] []) refl

  root_range :
      0 < n
      → n ≤ max_transactions
      → (node_matches sha256d n txids matches (calc_tree_height n) 0 ≡ selected txids matches 0 n)
        × (length hashes ≤ n)
  root_range some_tx few =
      let top = calc_tree_height_lem n few in
      let r =
        node_range sha256d n few txids matches (calc_tree_height n) 0 top.0
          (omega (arith, some_tx)) in
      let at : 0 * 2 ^ calc_tree_height n ≡ 0 = omega arith in
      let whole : range_size sha256d n txids (calc_tree_height n) 0 ≡ n = omega (arith, top.1) in
      (r.0 ∙ (λ i. selected txids matches (at i) (whole i)), omega (arith, r.1, whole))

  -- For the tree of `from_txids` on as many marks as transactions, at least one and at most `max_transactions` transactions, without two equal
  -- hashes side by side, `extract_matches` gives the root that `calc_hash` computes and the marked
  -- transactions, in their order.
  pub extract_matches-from_txids :
      length txids ≡ length matches
      → 0 < length txids
      → length txids ≤ max_transactions
      → NoTwins sha256d n txids matches (calc_tree_height n) 0
      → (from_txids sha256d txids matches >>= (λ t. ok (extract_matches sha256d t)))
        ≡ ok (some (calc_hash sha256d n txids (calc_tree_height n) 0, matched txids matches))
  unfolding extract_matches
  extract_matches-from_txids same some_tx few apart =
      let t0 : (length txids == 0) ≡ false = ground arith in
      let t1 : ltb max_transactions (length txids) ≡ false = ground arith in
      let r = root_range some_tx few in
      let t2 : ltb n (length hashes) ≡ false = ground (arith, r.1) in
      let t3 : ltb (length bits) (length hashes) ≡ false =
        ground (arith, hashes-le-bits sha256d n txids matches (calc_tree_height n) 0) in
      let run =
        extract-node sha256d n txids matches bits hashes (calc_tree_height n) 0 [] [] [] [] []
          (sym (append-nil bits)) (sym (append-nil hashes)) apart in
      let t4 : ((length bits + 7) / 8 == (length bits + 7) / 8) ≡ true = ground arith in
      let t5 : (length hashes == length hashes) ≡ true = ground arith in
      rw
        (
          from_txids_lem same few,
          t0,
          t1,
          t2,
          t3,
          run,
          t4,
          t5,
          r.0,
          selected-matched txids matches same,
        )
        refl
