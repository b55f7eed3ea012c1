-- ===== src/Primitives/Merkle/Extract.antt =====
-- `traverse_and_extract` of merkleblock.rs on the bits and hashes that `traverse_and_build` pushed.
use fluxd_rust.Prelude.{
  ℕ, zero, suc, ◌+◌, ◌≡◌, refl, sym, ap, ◌∙◌, List, [], ◌∷◌, ◌++◌, append_assoc, Bool, true, false,
  Bool-cases, inl, inr, length, get_or, leb, if◌then◌else◌,
}
use fluxd_rust.Primitives.Merkle.{
  PartialMerkleTree, Extraction, left_of, right_of, bytes_eq, take_hash, join_right,
  traverse_and_extract, calc_hash, merkle_hash_pair,
}
use fluxd_rust.Primitives.Merkle.Build.{
  has_right, is_parent, hash_of, node_bits, node_hashes, node_matches, node_stop, node_two,
  node_one,
}
use fluxd_rust.Primitives.Merkle.Taken.{
  used, length-snoc, shift_one, read_bit, more_bits, take_hash_read,
}

module _ (sha256d : List ℕ → List ℕ) (n : ℕ) (txids : List (List ℕ)) (matches : List Bool) where
  -- The extraction refuses two equal hashes side by side: none are, below this node.
  unfoldable pub NoTwins : ℕ → ℕ → Type 0
  NoTwins zero pos = Unit
  NoTwins (suc height) pos =
      NoTwins height (left_of pos)
      × (has_right sha256d n txids matches height pos ≡ true
          → NoTwins height (right_of pos)
            × (bytes_eq (hash_of sha256d n txids matches height (right_of pos))
                  (hash_of sha256d n txids matches height (left_of pos))
                ≡ false))

  module _ (bits : List Bool) (hashes : List (List ℕ)) where
    abbrev tree : PartialMerkleTree
    tree = record { n_transactions = n; bits = bits; hashes = hashes }

    abbrev here : ℕ → ℕ → Bool
    here = is_parent sha256d n txids matches

    abbrev hash : ℕ → ℕ → List ℕ
    hash = hash_of sha256d n txids matches

    abbrev bits_of : ℕ → ℕ → List Bool
    bits_of = node_bits sha256d n txids matches

    abbrev hashes_of : ℕ → ℕ → List (List ℕ)
    hashes_of = node_hashes sha256d n txids matches

    abbrev matches_of : ℕ → ℕ → List (List ℕ)
    matches_of = node_matches sha256d n txids matches

    abbrev right_bits : ℕ → ℕ → List Bool
    right_bits height pos =
        if has_right sha256d n txids matches height pos then bits_of height (right_of pos) else []

    abbrev extract : ℕ → ℕ → Extraction → List ℕ × Extraction
    extract = traverse_and_extract sha256d tree

    abbrev next : Extraction → Extraction
    next s = record s { bits_used = s.bits_used + 1 }

    abbrev has : ℕ → ℕ → Bool
    has height pos = has_right sha256d n txids matches height pos

    extract_stop :
        (height pos : ℕ) (s : Extraction)
        → leb (length bits) s.bits_used ≡ false
        → get_or bits s.bits_used false ≡ false
        → extract (suc height) pos s ≡ take_hash sha256d tree false (next s)
    unfolding traverse_and_extract
    extract_stop height pos s more bit = rw (more, bit) refl

    extract_two :
        (height pos : ℕ) (s : Extraction)
        → leb (length bits) s.bits_used ≡ false
        → get_or bits s.bits_used false ≡ true
        → has height pos ≡ true
        → extract (suc height) pos s ≡ (
            let left = extract height (left_of pos) (next s) in
            join_right sha256d tree left.0 (extract height (right_of pos) left.1))
    unfolding traverse_and_extract
    extract_two height pos s more bit two = rw (more, bit, two) refl

    extract_one :
        (height pos : ℕ) (s : Extraction)
        → leb (length bits) s.bits_used ≡ false
        → get_or bits s.bits_used false ≡ true
        → has height pos ≡ false
        → extract (suc height) pos s ≡ (
            let left = extract height (left_of pos) (next s) in
            (merkle_hash_pair sha256d left.0 left.0, left.1))
    unfolding traverse_and_extract
    extract_one height pos s more bit one = rw (more, bit, one) refl

    join_apart :
        (left right : List ℕ) (s : Extraction)
        → bytes_eq right left ≡ false
        → join_right sha256d tree left (right, s) ≡ (merkle_hash_pair sha256d left right, s)
    unfolding join_right
    join_apart left right s apart = rw apart refl

    hash_two :
        (height pos : ℕ)
        → has height pos ≡ true
        → hash (suc height) pos
          ≡ merkle_hash_pair sha256d (hash height (left_of pos)) (hash height (right_of pos))
    unfolding calc_hash
    hash_two height pos two = rw two refl

    hash_one :
        (height pos : ℕ)
        → has height pos ≡ false
        → hash (suc height) pos
          ≡ merkle_hash_pair sha256d (hash height (left_of pos)) (hash height (left_of pos))
    unfolding calc_hash
    hash_one height pos one = rw one refl

    next-used :
        (pre : List Bool) (b : Bool) (hpre out : List (List ℕ))
        → next (used pre hpre out) ≡ used (pre ++ (b ∷ [])) hpre out
    next-used pre b hpre out =
        ap (λ k. record (used pre hpre out) { bits_used = k }) (sym (length-snoc pre b))

    -- One bit is read, then the two parts behind it.
    regroup :
        (pre : List Bool) (b : Bool) (left right : List Bool)
        → ((pre ++ (b ∷ [])) ++ left) ++ right ≡ pre ++ (b ∷ (left ++ right))
    regroup pre b left right =
        append_assoc (pre ++ (b ∷ [])) left right ∙ append_assoc pre (b ∷ []) (left ++ right)

    leaf_lem :
        (pos : ℕ) (pre post : List Bool) (hpre hpost out : List (List ℕ))
        → bits ≡ pre ++ (bits_of 0 pos ++ post)
        → hashes ≡ hpre ++ (hashes_of 0 pos ++ hpost)
        → extract 0 pos (used pre hpre out) ≡ (
          hash 0 pos,
          used (pre ++ bits_of 0 pos) (hpre ++ hashes_of 0 pos) (out ++ matches_of 0 pos),
        )
    unfolding traverse_and_extract node_bits node_hashes node_matches
    leaf_lem pos pre post hpre hpost out at hat =
        rw
          (
            more_bits sha256d tree pre (here zero pos) post at,
            read_bit sha256d tree pre (here zero pos) post at,
            sym (length-snoc pre (here zero pos)),
          )
          (take_hash_read sha256d tree (here zero pos) (pre ++ (here zero pos ∷ [])) hpre
            (hash zero pos) hpost out hat)

    module _ (height pos : ℕ) (pre post : List Bool) (hpre hpost out : List (List ℕ)) where
      node_stop_lem :
          bits ≡ pre ++ (bits_of (suc height) pos ++ post)
          → hashes ≡ hpre ++ (hashes_of (suc height) pos ++ hpost)
          → here (suc height) pos ≡ false
          → extract (suc height) pos (used pre hpre out) ≡ (
            hash (suc height) pos,
            used
                (pre ++ bits_of (suc height) pos)
                (hpre ++ hashes_of (suc height) pos)
                (out ++ matches_of (suc height) pos),
          )
      node_stop_lem at hat stop =
          let p = node_stop sha256d n txids matches height pos stop in
          let at' = at ∙ ap (λ bs. pre ++ (bs ++ post)) p.0 in
          let hat' = hat ∙ ap (λ hs. hpre ++ (hs ++ hpost)) p.1 in
          rw (p.0, p.1, p.2)
            (extract_stop height pos (used pre hpre out) (more_bits sha256d tree pre false post at')
                (read_bit sha256d tree pre false post at')
              ∙ ap (take_hash sha256d tree false) (next-used pre false hpre out)
              ∙ take_hash_read sha256d tree false (pre ++ (false ∷ [])) hpre (hash (suc height) pos)
                  hpost out hat')

    pub extract-node :
        (height pos : ℕ) (pre post : List Bool) (hpre hpost out : List (List ℕ))
        → bits ≡ pre ++ (bits_of height pos ++ post)
        → hashes ≡ hpre ++ (hashes_of height pos ++ hpost)
        → NoTwins height pos
        → extract height pos (used pre hpre out) ≡ (
          hash height pos,
          used
              (pre ++ bits_of height pos)
              (hpre ++ hashes_of height pos)
              (out ++ matches_of height pos),
        )
    unfolding NoTwins
    extract-node zero pos pre post hpre hpost out at hat apart =
        leaf_lem pos pre post hpre hpost out at hat
    extract-node (suc height) pos pre post hpre hpost out at hat apart =
        elim (Bool-cases (here (suc height) pos)) [
          | inr stop ↦ node_stop_lem height pos pre post hpre hpost out at hat stop
          | inl split ↦
              let pre' = pre ++ (true ∷ []) in
              let L = bits_of height (left_of pos) in
              let R = bits_of height (right_of pos) in
              let HL = hashes_of height (left_of pos) in
              let HR = hashes_of height (right_of pos) in
              let ML = matches_of height (left_of pos) in
              let s1 = used pre' hpre out in
              let s2 = used (pre' ++ L) (hpre ++ HL) (out ++ ML) in
              elim (Bool-cases (has height pos)) [
                | inl two ↦
                    let p = node_two sha256d n txids matches height pos split two in
                    let at' = at ∙ ap (λ bs. pre ++ (bs ++ post)) p.0 in
                    let at0 = at' ∙ ap (λ bs. pre ++ (true ∷ bs)) (append_assoc L R post) in
                    let at1 = at0 ∙ shift_one pre true (L ++ (R ++ post)) in
                    let at2 = at1 ∙ sym (append_assoc pre' L (R ++ post)) in
                    let hat1 =
                      hat
                      ∙ ap (λ hs. hpre ++ (hs ++ hpost)) p.1
                      ∙ ap (λ hs. hpre ++ hs) (append_assoc HL HR hpost) in
                    let hat2 = hat1 ∙ sym (append_assoc hpre HL (HR ++ hpost)) in
                    let left =
                      extract-node height (left_of pos) pre' (R ++ post) hpre (HR ++ hpost) out at1
                        hat1 apart.0 in
                    let right =
                      extract-node height (right_of pos) (pre' ++ L) post (hpre ++ HL) hpost
                        (out ++ ML) at2 hat2 (apart.1 two).0 in
                    let HP =
                      merkle_hash_pair sha256d (hash height (left_of pos))
                        (hash height (right_of pos)) in
                    rw (p.0, p.1, p.2, hash_two height pos two)
                      (extract_two height pos (used pre hpre out)
                          (more_bits sha256d tree pre true (L ++ (R ++ post)) at0)
                          (read_bit sha256d tree pre true (L ++ (R ++ post)) at0) two
                        ∙ ap
                            (λ s.
                              let left = extract height (left_of pos) s in
                              join_right sha256d tree left.0 (extract height (right_of pos) left.1))
                            (next-used pre true hpre out)
                        ∙ ap
                            (λ left.
                              join_right sha256d tree left.0 (extract height (right_of pos) left.1))
                            left
                        ∙ ap (join_right sha256d tree (hash height (left_of pos))) right
                        ∙ join_apart (hash height (left_of pos)) (hash height (right_of pos))
                            (used ((pre' ++ L) ++ R) ((hpre ++ HL) ++ HR)
                              ((out ++ ML) ++ matches_of height (right_of pos)))
                            (apart.1 two).1
                        ∙ (λ i. (
                          HP,
                          used (regroup pre true L R i) (append_assoc hpre HL HR i)
                              (append_assoc out ML (matches_of height (right_of pos)) i),
                        )))
                | inr one ↦
                    let p = node_one sha256d n txids matches height pos split one in
                    let at' = at ∙ ap (λ bs. pre ++ (bs ++ post)) p.0 in
                    let hat' = hat ∙ ap (λ hs. hpre ++ (hs ++ hpost)) p.1 in
                    let left =
                      extract-node height (left_of pos) pre' post hpre hpost out
                        (at' ∙ shift_one pre true (L ++ post)) hat' apart.0 in
                    rw (p.0, p.1, p.2, hash_one height pos one)
                      (extract_one height pos (used pre hpre out)
                          (more_bits sha256d tree pre true (L ++ post) at')
                          (read_bit sha256d tree pre true (L ++ post) at') one
                        ∙ ap
                            (λ s.
                              let left = extract height (left_of pos) s in
                              (merkle_hash_pair sha256d left.0 left.0, left.1))
                            (next-used pre true hpre out)
                        ∙ ap (λ left. (merkle_hash_pair sha256d left.0 left.0, left.1)) left
                        ∙ ap
                            (λ bs. (
                              merkle_hash_pair sha256d (hash height (left_of pos))
                                  (hash height (left_of pos)),
                              used bs (hpre ++ HL) (out ++ ML),
                            ))
                            (append_assoc pre (true ∷ []) L))
              ]
        ]
