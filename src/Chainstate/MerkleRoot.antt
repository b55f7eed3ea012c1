-- ===== src/Chainstate/MerkleRoot.antt =====
-- crates/chainstate/src/validation.rs: the Merkle root of a block, with the mark of a doubled last pair.
-- `sha256d` is a parameter.
use fluxd_rust.Prelude.{
  ℕ, zero, suc, List, [], ◌∷◌, ◌++◌, Bool, false, ◌||◌, length, get_or, ltb, if◌then◌else◌,
}
use fluxd_rust.Primitives.Merkle.{bytes_eq, zero_hash}

module _ (sha256d : List ℕ → List ℕ) where
  -- One round of the loop over `i`, two hashes at a time: `i2` is `i` itself behind the last hash of an
  -- odd layer, and only the last pair is compared.
  unfoldable pub next_layer : List (List ℕ) → List (List ℕ) × Bool
  next_layer [] = ([], false)
  next_layer (x ∷ []) = (sha256d (x ++ x) ∷ [], false)
  next_layer (x ∷ y ∷ []) = (sha256d (x ++ y) ∷ [], bytes_eq x y)
  next_layer (x ∷ y ∷ z ∷ rest) =
      let next = next_layer (z ∷ rest) in (sha256d (x ++ y) ∷ next.0, next.1)

  -- `while layer.len() > 1`
  unfoldable pub layer_loop : ℕ → List (List ℕ) → Bool → List ℕ × Bool
  layer_loop zero layer mutated = (get_or layer 0 zero_hash, mutated)
  layer_loop (suc fuel) layer mutated =
      let next = next_layer layer in
      let rest = layer_loop fuel next.0 (mutated || next.1) in
      if ltb 1 (length layer) then rest else (get_or layer 0 zero_hash, mutated)

  -- A layer is shorter than the one below it: as many rounds as there are transactions are enough.
  unfoldable pub merkle_root : List (List ℕ) → List ℕ × Bool
  merkle_root txids = layer_loop (length txids) txids false
