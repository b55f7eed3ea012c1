-- ===== src/Primitives/Transaction/JoinSplits/Roundtrip.antt =====
-- The join splits of transaction.rs: what is written is read back in the format of the proofs.
use fluxd_rust.Prelude.{ℕ, ◌≡◌, refl, List, ◌++◌, append_assoc, length, Bool, true, false}
use fluxd_rust.Prelude.Result.{ok, ok-injective, >>=-eq-ok}
use fluxd_rust.Primitives.Encoding.{Encoder, write_bytes, write_hash_le, Reader, read_many}
use fluxd_rust.Primitives.Encoding.Writes.{writes, buf-write_bytes, buf-write_hash_le}
use fluxd_rust.Primitives.Encoding.Vectors.{write_each, buf-write_each}
use fluxd_rust.Primitives.Encoding.Reads.{
  Reads, Reads-bind, Reads-map, Reads-read_i64_le, Reads-read_hash_le, Reads-read_fixed,
  Reads-read_many,
}
use fluxd_rust.Primitives.Transaction.JoinSplits.{
  SproutProof, groth, phgr, JoinSplit, write_proof, write_statement, write_join_split, read_proof,
  read_join_split, proof_bytes, is_groth, IsProof, IsArrays, IsJoinSplit, concat, join_split_bytes,
  zc_note_ciphertext_size,
}

-- A written proof is of the format's kind.
write_proof_lem :
    (p : SproutProof) (use_groth : Bool) (e : Encoder) {e' : Encoder}
    → write_proof p use_groth e ≡ ok e'
    → (e'.buf ≡ e.buf ++ proof_bytes p) × (is_groth p ≡ use_groth)
unfolding write_proof
write_proof_lem (groth proof) true e h = (rw (← ok-injective h) (buf-write_bytes e proof), refl)
write_proof_lem (phgr proof) false e h = (rw (← ok-injective h) (buf-write_bytes e proof), refl)
write_proof_lem (groth proof) false e h = cc
write_proof_lem (phgr proof) true e h = cc

Reads-read_proof : (p : SproutProof) → IsProof p → Reads (read_proof (is_groth p)) (proof_bytes p) p
unfolding read_proof
Reads-read_proof (groth proof) h = Reads-map groth (Reads-read_fixed _ proof h) refl
Reads-read_proof (phgr proof) h = Reads-map phgr (Reads-read_fixed _ proof h) refl

Reads-array :
    {m : Reader (List ℕ)} (count size : ℕ) (xs : List (List ℕ))
    → ((x : List ℕ) → length x ≡ size → Reads m x x)
    → IsArrays count size xs
    → Reads (read_many count m) (concat xs) xs
Reads-array {m} count size xs each h =
    rw (← h.count_arrays) (Reads-read_many (λ x. x) (λ x. length x ≡ size) each xs h.sizes)

pub Reads-read_join_split :
    (j : JoinSplit)
    → IsJoinSplit j
    → Reads (read_join_split (is_groth j.proof)) (join_split_bytes j) j
unfolding read_join_split
Reads-read_join_split j h = Reads-bind _ (Reads-read_i64_le j.vpub_old h.vpub_old_range) (
    Reads-bind _ (Reads-read_i64_le j.vpub_new h.vpub_new_range) (
      Reads-bind _ (Reads-read_hash_le j.anchor h.anchor_size) (
        Reads-bind _ (Reads-array 2 32 j.nullifiers Reads-read_hash_le h.nullifiers_sizes) (
          Reads-bind _ (Reads-array 2 32 j.commitments Reads-read_hash_le h.commitments_sizes) (
            Reads-bind _ (Reads-read_hash_le j.ephemeral_key h.ephemeral_key_size) (
              Reads-bind _ (Reads-read_hash_le j.random_seed h.random_seed_size) (
                Reads-bind _ (Reads-array 2 32 j.macs Reads-read_hash_le h.macs_sizes) (
                  Reads-bind _ (Reads-read_proof j.proof h.proof_size) (
                    Reads-map _
                      (Reads-array 2 zc_note_ciphertext_size j.ciphertexts
                        (Reads-read_fixed zc_note_ciphertext_size) h.ciphertexts_sizes)
                      refl)))))))))

buf-write_statement :
    (j : JoinSplit) (e : Encoder)
    → (write_statement j e).buf ++ (proof_bytes j.proof ++ concat j.ciphertexts)
      ≡ e.buf ++ join_split_bytes j
unfolding write_statement
buf-write_statement j e =
    simp (writes, buf-write_each write_hash_le (λ x. x) (λ x e. buf-write_hash_le e x))

pub write_join_split_lem :
    (use_groth : Bool) (j : JoinSplit) (e : Encoder) {e' : Encoder}
    → write_join_split use_groth j e ≡ ok e'
    → (e'.buf ≡ e.buf ++ join_split_bytes j) × (is_groth j.proof ≡ use_groth)
unfolding write_join_split
write_join_split_lem use_groth j e h =
    let (e₁, p, k) =
      >>=-eq-ok (write_proof j.proof use_groth (write_statement j e))
        (λ e'. ok (write_each write_bytes j.ciphertexts e')) h in
    let (buf, kind) = write_proof_lem j.proof use_groth (write_statement j e) p in
    let parts =
      append_assoc (write_statement j e).buf (proof_bytes j.proof) (concat j.ciphertexts) in
    (
      rw (← ok-injective k, ← buf-write_statement j e, ← parts, ← buf)
          (buf-write_each write_bytes (λ x. x) (λ x e. buf-write_bytes e x) j.ciphertexts e₁),
      kind,
    )
