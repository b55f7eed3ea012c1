-- ===== src/Node/VerifyChain.antt =====
-- crates/node/src/verify_chain.rs: the Merkle root that `verifychain` computes again. `sha256d` is a
-- parameter.
pub mod Levels
pub mod Agree
use fluxd_rust.Prelude.{
  ℕ, zero, suc, ◌%◌, List, [], ◌∷◌, ◌++◌, length, get_or, ltb, ◌==◌, if◌then◌else◌,
}
use fluxd_rust.Primitives.Merkle.{zero_hash}

-- `if layer.len() % 2 == 1 { layer.push(last) }`
unfoldable pub last : List (List ℕ) → List ℕ
last [] = zero_hash
last (x ∷ []) = x
last (x ∷ y ∷ rest) = last (y ∷ rest)

abbrev pub even_layer : List (List ℕ) → List (List ℕ)
even_layer layer = if length layer % 2 == 1 then layer ++ (last layer ∷ []) else layer

module _ (sha256d : List ℕ → List ℕ) where
  -- `for pair in layer.chunks(2)`; on an odd layer, which does not occur, `pair[1]` would panic.
  unfoldable pub hash_chunks : List (List ℕ) → List (List ℕ)
  hash_chunks [] = []
  hash_chunks (x ∷ []) = []
  hash_chunks (x ∷ y ∷ rest) = sha256d (x ++ y) ∷ hash_chunks rest

  unfoldable pub chunk_loop : ℕ → List (List ℕ) → List ℕ
  chunk_loop zero layer = get_or layer 0 zero_hash
  chunk_loop (suc fuel) layer =
      let rest = chunk_loop fuel (hash_chunks (even_layer layer)) in
      if ltb 1 (length layer) then rest else get_or layer 0 zero_hash

  unfoldable pub compute_merkle_root : List (List ℕ) → List ℕ
  compute_merkle_root txids = chunk_loop (length txids) txids
