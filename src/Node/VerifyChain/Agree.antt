-- ===== src/Node/VerifyChain/Agree.antt =====
-- The Merkle roots of validation.rs, verify_chain.rs and merkleblock.rs compared.
use fluxd_rust.Prelude.{
  ℕ, zero, suc, ◌%◌, ◌≡◌, refl, ap, List, [], ◌∷◌, ◌++◌, Bool, false, ◌||◌, Bool-cases, inl, inr,
  length, ltb, ◌==◌, arith,
}
use fluxd_rust.Chainstate.MerkleRoot.{next_layer, layer_loop, merkle_root}
use fluxd_rust.Node.VerifyChain.{last, even_layer, hash_chunks, chunk_loop, compute_merkle_root}

module _ (sha256d : List ℕ → List ℕ) where
  two_less : (n : ℕ) → suc (suc n) % 2 ≡ n % 2
  two_less n = omega arith

  even_layer-step :
      (x y z : List ℕ) (rest : List (List ℕ))
      → even_layer (x ∷ y ∷ z ∷ rest) ≡ x ∷ y ∷ even_layer (z ∷ rest)
  unfolding last
  even_layer-step x y z rest = elim (Bool-cases (length (z ∷ rest) % 2 == 1)) [
    | inl odd ↦ rw (two_less (length (z ∷ rest)), odd) refl
    | inr even ↦ rw (two_less (length (z ∷ rest)), even) refl
  ]

  hash_chunks-even_layer :
      (layer : List (List ℕ))
      → hash_chunks sha256d (even_layer layer) ≡ (next_layer sha256d layer).0
  unfolding hash_chunks next_layer last
  hash_chunks-even_layer [] = refl
  hash_chunks-even_layer (x ∷ []) = refl
  hash_chunks-even_layer (x ∷ y ∷ []) = refl
  hash_chunks-even_layer (x ∷ y ∷ z ∷ rest) =
      rw (even_layer-step x y z rest)
        (ap (λ hs. sha256d (x ++ y) ∷ hs) (hash_chunks-even_layer (z ∷ rest)))

  loops_agree :
      (fuel : ℕ) (layer : List (List ℕ)) (mutated : Bool)
      → (layer_loop sha256d fuel layer mutated).0 ≡ chunk_loop sha256d fuel layer
  unfolding layer_loop chunk_loop
  loops_agree zero layer mutated = refl
  loops_agree (suc fuel) layer mutated =
      let next = next_layer sha256d layer in
      elim (Bool-cases (ltb 1 (length layer))) [
        | inl more ↦
            rw (more, hash_chunks-even_layer layer) (loops_agree fuel next.0 (mutated || next.1))
        | inr done ↦ rw done refl
      ]

  -- The root that validation compares with a block's header is the one that `verifychain` computes.
  pub merkle_root-compute_merkle_root :
      (txids : List (List ℕ)) → (merkle_root sha256d txids).0 ≡ compute_merkle_root sha256d txids
  unfolding merkle_root compute_merkle_root
  merkle_root-compute_merkle_root txids = loops_agree (length txids) txids false
