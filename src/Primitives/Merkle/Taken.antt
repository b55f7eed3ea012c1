-- ===== src/Primitives/Merkle/Taken.antt =====
-- merkleblock.rs: one bit and one hash that `traverse_and_extract` takes.
use fluxd_rust.Prelude.{
  ℕ, ◌+◌, ◌≡◌, refl, sym, List, [], ◌∷◌, ◌++◌, append-nil, append_assoc, Bool, true, false, length,
  length-append, get_or, leb, if◌then◌else◌, arith,
}
use fluxd_rust.Primitives.Merkle.{PartialMerkleTree, Extraction, take_hash, zero_hash}

module _ {ℓ} {A : Type ℓ} where
  pub get_or-append :
      (pre : List A) (x : A) (post : List A) (d : A) → get_or (pre ++ (x ∷ post)) (length pre) d ≡ x
  get_or-append [] x post d = refl
  get_or-append (y ∷ pre) x post d = get_or-append pre x post d

  pub leb-append :
      (pre : List A) (x : A) (post : List A) → leb (length (pre ++ (x ∷ post))) (length pre) ≡ false
  leb-append pre x post = ground (arith, length-append pre (x ∷ post))

  pub length-snoc : (pre : List A) (x : A) → length (pre ++ (x ∷ [])) ≡ length pre + 1
  length-snoc pre x = length-append pre (x ∷ [])

  -- What is behind the first element, with that element in front of it.
  pub shift_one :
      (pre : List A) (x : A) (post : List A) → pre ++ (x ∷ post) ≡ (pre ++ (x ∷ [])) ++ post
  shift_one pre x post = sym (append_assoc pre (x ∷ []) post)

-- The variables once the given bits and hashes are used.
abbrev pub used : List Bool → List (List ℕ) → List (List ℕ) → Extraction
used bits hashes out = record {
  bits_used = length bits;
  hashes_used = length hashes;
  matches_out = out;
  bad = false;
}

module _ (sha256d : List ℕ → List ℕ) (t : PartialMerkleTree) where
  pub read_bit :
      (pre : List Bool) (x : Bool) (post : List Bool)
      → t.bits ≡ pre ++ (x ∷ post)
      → get_or t.bits (length pre) false ≡ x
  read_bit pre x post at = rw at (get_or-append pre x post false)

  pub more_bits :
      (pre : List Bool) (x : Bool) (post : List Bool)
      → t.bits ≡ pre ++ (x ∷ post)
      → leb (length t.bits) (length pre) ≡ false
  more_bits pre x post at = rw at (leb-append pre x post)

  pub take_hash_read :
      (is_match : Bool) (bits : List Bool) (pre : List (List ℕ)) (x : List ℕ)
      (post out : List (List ℕ))
      → t.hashes ≡ pre ++ (x ∷ post)
      → take_hash sha256d t is_match (used bits pre out)
        ≡ (x, used bits (pre ++ (x ∷ [])) (out ++ (if is_match then x ∷ [] else [])))
  unfolding take_hash
  take_hash_read false bits pre x post out at =
      rw
        (
          at,
          leb-append pre x post,
          get_or-append pre x post zero_hash,
          length-snoc pre x,
          append-nil,
        )
        refl
  take_hash_read true bits pre x post out at =
      rw (at, leb-append pre x post, get_or-append pre x post zero_hash, length-snoc pre x) refl
