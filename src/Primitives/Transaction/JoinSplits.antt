-- ===== src/Primitives/Transaction/JoinSplits.antt =====
-- crates/primitives/src/transaction.rs: the Sprout join splits, with either kind of proof.
pub mod Roundtrip
use fluxd_rust.Prelude.{
  ℕ, ◌^◌, ◌≡◌, refl, List, [], ◌∷◌, ◌++◌, append-nil, append_assoc, length, Bool, true, false,
  if◌then◌else◌, sym, ◌∙◌,
}
use fluxd_rust.Prelude.Int.{ℤ}
use fluxd_rust.Prelude.Result.{Result, ok, err, and_then}
use fluxd_rust.Primitives.Bytes.{to_le_bytes, as_unsigned, IsSigned}
use fluxd_rust.Primitives.Encoding.{
  Encoder, ◌▷◌, write_bytes, write_i64_le, write_hash_le, Reader, ◌>>=◌, pure, read_i64_le,
  read_fixed, read_hash_le, read_many,
}
use fluxd_rust.Primitives.Encoding.Writes.{writes, buf-write_bytes, buf-write_hash_le}
use fluxd_rust.Primitives.Encoding.Vectors.{write_each, buf-write_each}
use fluxd_rust.Primitives.Encoding.Reads.{
  Reads, Reads-bind, Reads-map, Reads-read_i64_le, Reads-read_hash_le, Reads-read_fixed,
  Reads-read_many, concat_map, All,
}
use fluxd_rust.Primitives.Transaction.Parts.{groth_proof_size}
use fluxd_rust.Primitives.Transaction.Errors.{TransactionEncodeError, invalid_format}

abbrev pub zc_num_js_inputs : ℕ
zc_num_js_inputs = 2

abbrev pub zc_num_js_outputs : ℕ
zc_num_js_outputs = 2

abbrev pub zc_note_ciphertext_size : ℕ
zc_note_ciphertext_size = 601

abbrev pub phgr_proof_size : ℕ
phgr_proof_size = 296

pub data SproutProof : Type 0 where
  groth phgr : (proof : List ℕ) → SproutProof

-- An array of the source is a list of the array's length.
pub record JoinSplit : Type 0 where
  pub vpub_old : ℤ
  pub vpub_new : ℤ
  pub anchor : List ℕ
  pub nullifiers : List (List ℕ)
  pub commitments : List (List ℕ)
  pub ephemeral_key : List ℕ
  pub random_seed : List ℕ
  pub macs : List (List ℕ)
  pub proof : SproutProof
  pub ciphertexts : List (List ℕ)

unfoldable pub write_proof : SproutProof → Bool → Encoder → Result TransactionEncodeError Encoder
write_proof (groth proof) true e = ok (write_bytes proof e)
write_proof (phgr proof) false e = ok (write_bytes proof e)
write_proof (groth proof) false e =
    err (invalid_format "joinsplit proof does not match transaction format")
write_proof (phgr proof) true e =
    err (invalid_format "joinsplit proof does not match transaction format")

-- `consensus_encode_with` up to the proof.
unfoldable pub write_statement : JoinSplit → Encoder → Encoder
unfolding write_each
write_statement j e =
    e
    ▷ write_i64_le j.vpub_old
    ▷ write_i64_le j.vpub_new
    ▷ write_hash_le j.anchor
    ▷ write_each write_hash_le j.nullifiers
    ▷ write_each write_hash_le j.commitments
    ▷ write_hash_le j.ephemeral_key
    ▷ write_hash_le j.random_seed
    ▷ write_each write_hash_le j.macs

unfoldable pub write_join_split : Bool → JoinSplit → Encoder → Result TransactionEncodeError Encoder
unfolding write_each write_proof write_statement
write_join_split use_groth j e =
    and_then (write_proof j.proof use_groth (write_statement j e))
      λ e'. ok (write_each write_bytes j.ciphertexts e')

read_proof : Bool → Reader SproutProof
unfolding ◌>>=◌ pure read_fixed
read_proof use_groth =
    if use_groth
    then (read_fixed groth_proof_size >>= λ proof. pure (groth proof))
    else (read_fixed phgr_proof_size >>= λ proof. pure (phgr proof))

unfoldable pub read_join_split : Bool → Reader JoinSplit
unfolding ◌>>=◌ pure read_i64_le read_hash_le read_many read_fixed read_proof
read_join_split use_groth = do
  vpub_old ← read_i64_le
  vpub_new ← read_i64_le
  anchor ← read_hash_le
  nullifiers ← read_many zc_num_js_inputs read_hash_le
  commitments ← read_many zc_num_js_outputs read_hash_le
  ephemeral_key ← read_hash_le
  random_seed ← read_hash_le
  macs ← read_many zc_num_js_inputs read_hash_le
  proof ← read_proof use_groth
  ciphertexts ← read_many zc_num_js_outputs (read_fixed zc_note_ciphertext_size)
  pure (record {
    vpub_old = vpub_old;
    vpub_new = vpub_new;
    anchor = anchor;
    nullifiers = nullifiers;
    commitments = commitments;
    ephemeral_key = ephemeral_key;
    random_seed = random_seed;
    macs = macs;
    proof = proof;
    ciphertexts = ciphertexts;
  })

abbrev pub proof_bytes : SproutProof → List ℕ
proof_bytes (groth proof) = proof
proof_bytes (phgr proof) = proof

abbrev pub is_groth : SproutProof → Bool
is_groth (groth proof) = true
is_groth (phgr proof) = false

-- The size of the proof's array.
abbrev pub IsProof : SproutProof → Type 0
IsProof (groth proof) = length proof ≡ groth_proof_size
IsProof (phgr proof) = length proof ≡ phgr_proof_size

-- So many arrays of such a size.
pub record IsArrays (count size : ℕ) (xs : List (List ℕ)) : Type 0 where
  pub count_arrays : length xs ≡ count
  pub sizes : All (λ x. length x ≡ size) xs

pub record IsJoinSplit (j : JoinSplit) : Type 0 where
  pub vpub_old_range : IsSigned (2 ^ 64) j.vpub_old
  pub vpub_new_range : IsSigned (2 ^ 64) j.vpub_new
  pub anchor_size : length j.anchor ≡ 32
  pub nullifiers_sizes : IsArrays zc_num_js_inputs 32 j.nullifiers
  pub commitments_sizes : IsArrays zc_num_js_outputs 32 j.commitments
  pub ephemeral_key_size : length j.ephemeral_key ≡ 32
  pub random_seed_size : length j.random_seed ≡ 32
  pub macs_sizes : IsArrays zc_num_js_inputs 32 j.macs
  pub proof_size : IsProof j.proof
  pub ciphertexts_sizes : IsArrays zc_num_js_outputs zc_note_ciphertext_size j.ciphertexts

abbrev pub concat : List (List ℕ) → List ℕ
concat xs = concat_map (λ x. x) xs

abbrev pub join_split_bytes : JoinSplit → List ℕ
join_split_bytes j =
    to_le_bytes 8 (as_unsigned (2 ^ 64) j.vpub_old)
    ++ (to_le_bytes 8 (as_unsigned (2 ^ 64) j.vpub_new)
        ++ (j.anchor
            ++ (concat j.nullifiers
                ++ (concat j.commitments
                    ++ (j.ephemeral_key
                        ++ (j.random_seed
                            ++ (concat j.macs
                                ++ (proof_bytes j.proof ++ concat j.ciphertexts))))))))
