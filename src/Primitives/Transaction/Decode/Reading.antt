-- ===== src/Primitives/Transaction/Decode/Reading.antt =====
-- Reading back the formats of transaction.rs that are not those of fluxnodes.
use fluxd_rust.Prelude.{
  ℕ, ◌≡◌, refl, List, [], ◌∷◌, ◌++◌, append_assoc, replicate, Bool, true, false, ◌||◌,
  if◌then◌else◌,
}
use fluxd_rust.Prelude.Int.{pos, leb_ℤ}
use fluxd_rust.Primitives.Bytes.{to_le_bytes}
use fluxd_rust.Primitives.Encoding.Reads.{
  Reads, Reads-bind, Reads-map, Reads-pure, Reads-read_u32_le, Reads-read_i64_le, Reads-read_fixed,
  All,
}
use fluxd_rust.Primitives.Encoding.Vectors.{vec_bytes, Reads-read_vec}
use fluxd_rust.Primitives.Transaction.{Transaction}
use fluxd_rust.Primitives.Transaction.Parts.{
  IsTxIn, IsTxOut, IsSpendDescription, IsOutputDescription, tx_in_bytes, tx_out_bytes, spend_bytes,
  output_bytes, Reads-read_tx_in, Reads-read_tx_out, Reads-read_spend, Reads-read_output,
}
use fluxd_rust.Primitives.Transaction.JoinSplits.{
  JoinSplit, IsJoinSplit, join_split_bytes, is_groth, read_join_split,
}
use fluxd_rust.Primitives.Transaction.JoinSplits.Roundtrip.{Reads-read_join_split}
use fluxd_rust.Primitives.Transaction.Optional.{read_if, bytes_if, Reads-read_if}
use fluxd_rust.Primitives.Transaction.Decode.{
  read_sapling, read_split_keys, no_keys, read_join_splits, decode_formats,
}
use fluxd_rust.Primitives.Transaction.Decode.Kept.{
  IsTransaction, kept_sapling, kept_keys, kept_group, kept_formats, is_shielded,
}
use fluxd_rust.Primitives.Transaction.Decode.Formats.{
  sapling_bytes, has_keys, splits_bytes, use_groth, binding_bytes, formats_bytes, Kinds,
}

All-both :
    {A : Type 0} (P Q : A → Type 0) (xs : List A) → All P xs → All Q xs → All (λ x. P x × Q x) xs
All-both P Q [] h k = tt
All-both P Q (x ∷ xs) h k = ((h.0, k.0), All-both P Q xs h.1 k.1)

Reads-split :
    (use_groth : Bool) (j : JoinSplit)
    → IsJoinSplit j × (is_groth j.proof ≡ use_groth)
    → Reads (read_join_split use_groth) (join_split_bytes j) j
Reads-split use_groth j h = rw (← h.1) (Reads-read_join_split j h.0)

module _ (is_utf8 : List ℕ → Bool) (tx : Transaction) (h : IsTransaction is_utf8 tx) where
  Reads-read_sapling :
      Reads read_sapling
        (sapling_bytes tx)
        (tx.value_balance, tx.shielded_spends, tx.shielded_outputs)
  unfolding read_sapling
  Reads-read_sapling = Reads-bind _ (Reads-read_i64_le tx.value_balance h.value_balance_range) (
      Reads-bind _
        (Reads-read_vec spend_bytes IsSpendDescription Reads-read_spend tx.shielded_spends
          h.shielded_spends_sizes.0 h.shielded_spends_sizes.1)
        (Reads-map _
          (Reads-read_vec output_bytes IsOutputDescription Reads-read_output tx.shielded_outputs
            h.shielded_outputs_sizes.0 h.shielded_outputs_sizes.1)
          refl))

  Reads-read_split_keys :
      Reads read_split_keys
        (tx.join_split_pub_key ++ tx.join_split_sig)
        (tx.join_split_pub_key, tx.join_split_sig)
  unfolding read_split_keys
  Reads-read_split_keys =
      Reads-bind _ (Reads-read_fixed 32 tx.join_split_pub_key h.join_split_pub_key_size)
        (Reads-map _ (Reads-read_fixed 64 tx.join_split_sig h.join_split_sig_size) refl)

  Reads-read_join_splits :
      All (λ j. is_groth j.proof ≡ use_groth tx) tx.join_splits
      → Reads
          (read_join_splits (use_groth tx))
          (splits_bytes tx)
          (tx.join_splits, (kept_keys tx).0, (kept_keys tx).1)
  unfolding read_join_splits
  Reads-read_join_splits kinds =
      Reads-bind _
        (Reads-read_vec join_split_bytes (λ j. IsJoinSplit j × (is_groth j.proof ≡ use_groth tx))
          (Reads-split (use_groth tx)) tx.join_splits h.join_splits_sizes.0
          (All-both IsJoinSplit (λ j. is_groth j.proof ≡ use_groth tx) tx.join_splits
            h.join_splits_sizes.1 kinds))
        (Reads-map _ (Reads-read_if (has_keys tx) no_keys Reads-read_split_keys) refl)

  -- The step is read where the version has it.
  Reads-splits_step :
      (b : Bool)
      → (b ≡ true → All (λ j. is_groth j.proof ≡ use_groth tx) tx.join_splits)
      → Reads
          (read_if b ([], no_keys.0, no_keys.1) (read_join_splits (use_groth tx)))
          (bytes_if b (splits_bytes tx))
          (if b
            then (tx.join_splits, (kept_keys tx).0, (kept_keys tx).1)
            else ([], no_keys.0, no_keys.1))
  Reads-splits_step true kinds = Reads-read_if true _ (Reads-read_join_splits (kinds refl))
  Reads-splits_step false kinds = unfold read_if in Reads-pure _

  -- The bytes in the decoder's order, bracketed to the right.
  abbrev right_bytes : Bool → Bool → List ℕ
  right_bytes v3 v4 =
      vec_bytes tx_in_bytes tx.vin
      ++ (vec_bytes tx_out_bytes tx.vout
          ++ (to_le_bytes 4 tx.lock_time
              ++ (bytes_if (v3 || v4) (to_le_bytes 4 tx.expiry_height)
                  ++ (bytes_if v4 (sapling_bytes tx)
                      ++ (bytes_if (leb_ℤ (pos 2) tx.version) (splits_bytes tx)
                          ++ binding_bytes tx v4)))))

  formats_bytes-right : (v3 v4 : Bool) → formats_bytes tx v3 v4 ≡ right_bytes v3 v4
  formats_bytes-right v3 v4 = simp append_assoc

  pub Reads-decode_formats :
      (v3 v4 : Bool)
      → Kinds tx
      → Reads
          (decode_formats tx.f_overwintered tx.version (kept_group tx) v3 v4)
          (formats_bytes tx v3 v4)
          (kept_formats tx v3 v4)
  unfolding decode_formats
  Reads-decode_formats v3 v4 kinds = rw (formats_bytes-right v3 v4) (
      Reads-bind _
        (Reads-read_vec tx_in_bytes IsTxIn Reads-read_tx_in tx.vin h.vin_sizes.0 h.vin_sizes.1)
        (Reads-bind _
          (Reads-read_vec tx_out_bytes IsTxOut Reads-read_tx_out tx.vout h.vout_sizes.0
            h.vout_sizes.1)
          (Reads-bind _ (Reads-read_u32_le tx.lock_time h.lock_time_range) (
            Reads-bind _
              (Reads-read_if (v3 || v4) 0
                (Reads-read_u32_le tx.expiry_height h.expiry_height_range))
              (Reads-bind _ (Reads-read_if v4 (pos 0, [], []) Reads-read_sapling) (
                Reads-bind _ (Reads-splits_step (leb_ℤ (pos 2) tx.version) kinds) (
                  Reads-map _
                    (Reads-read_if (is_shielded v4 (kept_sapling tx v4)) (replicate 64 0)
                      (Reads-read_fixed 64 tx.binding_sig h.binding_sig_size))
                    refl)))))))
