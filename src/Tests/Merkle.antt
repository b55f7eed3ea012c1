-- ===== src/Tests/Merkle.antt =====
-- Merkle trees of merkleblock.rs, validation.rs and verify_chain.rs over a checksum in place of SHA-256.
use fluxd_rust.Prelude.{
  ℕ, ◌+◌, ◌*◌, ◌%◌, ◌≡◌, refl, List, [], ◌∷◌, Bool, true, false, some, none, arith,
}
use fluxd_rust.Prelude.Result.{ok, err, ◌>>=◌}
use fluxd_rust.Primitives.Encoding.{invalid_data}
use fluxd_rust.Primitives.Merkle.{
  PartialMerkleTree, from_txids, extract_matches, calc_tree_height, calc_hash, traverse_and_build,
  any_match, bytes_eq, merkle_hash_pair, calc_tree_width, height_loop,
}
use fluxd_rust.Primitives.Merkle.Extract.{NoTwins}
use fluxd_rust.Primitives.Merkle.Roundtrip.{matched, extract_matches-from_txids}
use fluxd_rust.Chainstate.MerkleRoot.{next_layer, layer_loop, merkle_root}
use fluxd_rust.Node.VerifyChain.{compute_merkle_root}
use fluxd_rust.Node.VerifyChain.Agree.{merkle_root-compute_merkle_root}
use fluxd_rust.Node.VerifyChain.Levels.{merkle_root-calc_hash}

unfoldable sum_from : ℕ → List ℕ → ℕ
sum_from sum [] = sum
sum_from sum (b ∷ bytes) = sum_from ((sum * 31 + b) % 251) bytes

abbrev checksum : List ℕ → List ℕ
checksum bytes = sum_from 7 bytes ∷ []

abbrev txids : List (List ℕ)
txids = (1 ∷ []) ∷ (2 ∷ []) ∷ (3 ∷ []) ∷ []

abbrev marks : List Bool
marks = false ∷ true ∷ false ∷ []

abbrev tree : PartialMerkleTree
tree = record {
  n_transactions = 3;
  bits = true ∷ true ∷ false ∷ true ∷ false ∷ [];
  hashes = (1 ∷ []) ∷ (2 ∷ []) ∷ (46 ∷ []) ∷ [];
}

tree_of_three : from_txids checksum txids marks ≡ ok tree
unfolding from_txids traverse_and_build any_match calc_hash calc_tree_width calc_tree_height
    height_loop merkle_hash_pair sum_from
tree_of_three = refl

lengths_apart :
    from_txids checksum txids (true ∷ []) ≡ err (invalid_data "txids/matches length mismatch")
unfolding from_txids traverse_and_build any_match calc_hash calc_tree_width calc_tree_height
    height_loop merkle_hash_pair sum_from
lengths_apart = refl

left_over :
    extract_matches checksum
      (record tree { hashes = (1 ∷ []) ∷ (2 ∷ []) ∷ (8 ∷ []) ∷ (9 ∷ []) ∷ [] })
    ≡ none
unfolding extract_matches
left_over = refl

-- The last two transactions are equal.
doubled :
    merkle_root checksum ((1 ∷ []) ∷ (2 ∷ []) ∷ (3 ∷ []) ∷ (3 ∷ []) ∷ [])
    ≡ ((merkle_root checksum txids).0, true)
unfolding merkle_root layer_loop next_layer sum_from bytes_eq
doubled = refl

extract_matches-from_txids_example :
    (from_txids checksum txids marks >>= (λ t. ok (extract_matches checksum t)))
    ≡ ok (some (calc_hash checksum 3 txids (calc_tree_height 3) 0, matched txids marks))
unfolding NoTwins bytes_eq calc_tree_height height_loop calc_tree_width calc_hash sum_from
    merkle_hash_pair
extract_matches-from_txids_example =
    extract_matches-from_txids checksum txids marks refl (omega arith) (omega arith)
      ((tt, λ two. (tt, refl)), λ two. ((tt, λ none_there. absurd cc), refl))

merkle_root-compute_merkle_root_example :
    (merkle_root checksum txids).0 ≡ compute_merkle_root checksum txids
merkle_root-compute_merkle_root_example = merkle_root-compute_merkle_root checksum txids

merkle_root-calc_hash_example :
    (merkle_root checksum txids).0 ≡ calc_hash checksum 3 txids (calc_tree_height 3) 0
merkle_root-calc_hash_example = merkle_root-calc_hash checksum txids (omega arith) (omega arith)
