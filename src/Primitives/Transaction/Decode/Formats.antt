-- ===== src/Primitives/Transaction/Decode/Formats.antt =====
-- The formats of transaction.rs that are not those of fluxnodes.
use fluxd_rust.Prelude.{
  is_nil, ℕ, ◌^◌, ◌≡◌, refl, sym, List, [], ◌∷◌, ◌++◌, append_assoc, append-nil, Bool, true, false,
  not, ◌&&◌, ◌||◌, if◌then◌else◌,
}
use fluxd_rust.Prelude.Int.{pos, leb_ℤ}
use fluxd_rust.Prelude.Result.{ok, fail_if, fail_if-eq-ok, ok-injective, >>=-eq-ok}
use fluxd_rust.Primitives.Bytes.{to_le_bytes, as_unsigned}
use fluxd_rust.Primitives.Encoding.{Encoder, write_bytes, write_u32_le}
use fluxd_rust.Primitives.Encoding.Writes.{writes, buf-write_bytes, buf-write_u32_le}
use fluxd_rust.Primitives.Encoding.Vectors.{vec_bytes, buf-write_vec}
use fluxd_rust.Primitives.Encoding.Reads.{concat_map, All}
use fluxd_rust.Primitives.Transaction.{Transaction}
use fluxd_rust.Primitives.Transaction.Errors.{invalid_format}
use fluxd_rust.Primitives.Transaction.Parts.{
  write_tx_in, write_tx_out, write_spend, write_output, tx_in_bytes, tx_out_bytes, spend_bytes,
  output_bytes, buf-write_tx_in, buf-write_tx_out, buf-write_spend, buf-write_output,
}
use fluxd_rust.Primitives.Transaction.JoinSplits.{
  JoinSplit, join_split_bytes, is_groth, write_join_split,
}
use fluxd_rust.Primitives.Transaction.JoinSplits.Roundtrip.{write_join_split_lem}
use fluxd_rust.Primitives.Transaction.Optional.{bytes_if, buf-write_if}
use fluxd_rust.Primitives.Transaction.Encode.{
  write_sapling, write_each_split, write_split_keys, write_join_splits, write_inputs,
  has_binding_sig, encode_formats,
}
use fluxd_rust.Primitives.Transaction.Decode.Kept.{kept_sapling, is_shielded}

-- Each join split is written, and each has the proof of the format.
write_each_split_lem :
    (use_groth : Bool) (js : List JoinSplit) (e : Encoder) {e' : Encoder}
    → write_each_split use_groth js e ≡ ok e'
    → (e'.buf ≡ e.buf ++ concat_map join_split_bytes js)
      × All (λ j. is_groth j.proof ≡ use_groth) js
unfolding write_each_split
write_each_split_lem use_groth [] e h = (rw (← ok-injective h) (sym (append-nil e.buf)), tt)
write_each_split_lem use_groth (j ∷ js) e h =
    let (e₁, p, q) = >>=-eq-ok (write_join_split use_groth j e) (write_each_split use_groth js) h in
    let (buf₁, kind) = write_join_split_lem use_groth j e p in
    let (buf₂, kinds) = write_each_split_lem use_groth js e₁ q in
    (
      rw (buf₂, buf₁) (append_assoc e.buf (join_split_bytes j) (concat_map join_split_bytes js)),
      (kind, kinds),
    )

module _ (tx : Transaction) where
  abbrev pub sapling_bytes : List ℕ
  sapling_bytes =
      to_le_bytes 8 (as_unsigned (2 ^ 64) tx.value_balance)
      ++ (vec_bytes spend_bytes tx.shielded_spends ++ vec_bytes output_bytes tx.shielded_outputs)

  buf-write_sapling : (e : Encoder) → (write_sapling tx e).buf ≡ e.buf ++ sapling_bytes
  unfolding write_sapling
  buf-write_sapling e = simp (
    writes,
    buf-write_vec write_spend spend_bytes buf-write_spend,
    buf-write_vec write_output output_bytes buf-write_output,
  )

  abbrev pub has_keys : Bool
  has_keys = not (is_nil tx.join_splits)

  abbrev pub key_bytes : List ℕ
  key_bytes = bytes_if has_keys (tx.join_split_pub_key ++ tx.join_split_sig)

  abbrev pub splits_bytes : List ℕ
  splits_bytes = vec_bytes join_split_bytes tx.join_splits ++ key_bytes

  abbrev pub inputs_bytes : Bool → Bool → List ℕ
  inputs_bytes v3 v4 =
      vec_bytes tx_in_bytes tx.vin
      ++ (vec_bytes tx_out_bytes tx.vout
          ++ (to_le_bytes 4 tx.lock_time
              ++ (bytes_if (v3 || v4) (to_le_bytes 4 tx.expiry_height)
                  ++ bytes_if v4 sapling_bytes)))

  abbrev pub use_groth : Bool
  use_groth = tx.f_overwintered && leb_ℤ (pos 4) tx.version

  write_join_splits_lem :
      (e : Encoder) {e' : Encoder}
      → write_join_splits tx e ≡ ok e'
      → (e'.buf ≡ e.buf ++ splits_bytes) × All (λ j. is_groth j.proof ≡ use_groth) tx.join_splits
  unfolding write_join_splits
  write_join_splits_lem e h =
      let (e₁, p, q) = >>=-eq-ok (write_each_split use_groth tx.join_splits _) _ h in
      let (buf, kinds) = write_each_split_lem use_groth tx.join_splits _ p in
      let keys : (write_split_keys tx e₁).buf
          ≡ e₁.buf ++ (tx.join_split_pub_key ++ tx.join_split_sig) =
        unfold write_split_keys in simp writes in
      (
        rw (← ok-injective q, buf-write_if has_keys (write_split_keys tx) _ e₁ keys, buf)
            (simp writes),
        kinds,
      )

  buf-write_inputs :
      (v3 v4 : Bool) (e : Encoder) → (write_inputs tx v3 v4 e).buf ≡ e.buf ++ inputs_bytes v3 v4
  unfolding write_inputs
  buf-write_inputs v3 v4 e = simp (
    writes,
    buf-write_vec write_tx_in tx_in_bytes buf-write_tx_in,
    buf-write_vec write_tx_out tx_out_bytes buf-write_tx_out,
    λ (e : Encoder).
        buf-write_if (v3 || v4) (write_u32_le tx.expiry_height) _ e
          (buf-write_u32_le e tx.expiry_height),
    λ (e : Encoder). buf-write_if v4 (write_sapling tx) _ e (buf-write_sapling e),
  )

  abbrev pub binding_bytes : Bool → List ℕ
  binding_bytes v4 = bytes_if (is_shielded v4 (kept_sapling tx v4)) tx.binding_sig

  has_binding_sig_lem : (v4 : Bool) → has_binding_sig tx v4 ≡ is_shielded v4 (kept_sapling tx v4)
  unfolding has_binding_sig
  has_binding_sig_lem true = refl
  has_binding_sig_lem false = refl

  abbrev pub formats_bytes : Bool → Bool → List ℕ
  formats_bytes v3 v4 =
      inputs_bytes v3 v4 ++ (bytes_if (leb_ℤ (pos 2) tx.version) splits_bytes ++ binding_bytes v4)

  -- What the encoder needs of the join splits' proofs.
  abbrev pub Kinds : Type 0
  Kinds = leb_ℤ (pos 2) tx.version ≡ true → All (λ j. is_groth j.proof ≡ use_groth) tx.join_splits

  -- The step of the join splits, taken from the second version on.
  splits_step :
      (b : Bool) (e : Encoder) {e' : Encoder}
      → (if b then write_join_splits tx e else ok e) ≡ ok e'
      → (e'.buf ≡ e.buf ++ bytes_if b splits_bytes)
        × (b ≡ true → All (λ j. is_groth j.proof ≡ use_groth) tx.join_splits)
  splits_step true e h = let (buf, kinds) = write_join_splits_lem e h in (buf, λ t. kinds)
  splits_step false e h = (rw (← ok-injective h) (sym (append-nil e.buf)), λ t. cc)

  pub encode_formats_lem :
      (v3 v4 : Bool) (e : Encoder) {e' : Encoder}
      → encode_formats tx v3 v4 e ≡ ok e'
      → (e'.buf ≡ e.buf ++ formats_bytes v3 v4)
        × (tx.f_overwintered && not (v3 || v4) ≡ false)
        × Kinds
  unfolding encode_formats
  encode_formats_lem v3 v4 e h =
      let (_, known, h₁) =
        >>=-eq-ok
          (fail_if (tx.f_overwintered && not (v3 || v4))
            (invalid_format "unknown overwinter transaction format"))
          _ h in
      let (e₁, p, q) =
        >>=-eq-ok
          (if leb_ℤ (pos 2) tx.version
            then write_join_splits tx (write_inputs tx v3 v4 e)
            else ok (write_inputs tx v3 v4 e))
          _ h₁ in
      let (buf, kinds) = splits_step (leb_ℤ (pos 2) tx.version) (write_inputs tx v3 v4 e) p in
      (
        rw
            (
              ← ok-injective q,
              buf-write_if (has_binding_sig tx v4) (write_bytes tx.binding_sig) _ e₁
                  (buf-write_bytes e₁ tx.binding_sig),
              has_binding_sig_lem v4,
              buf,
              buf-write_inputs v3 v4 e,
            )
            (simp append_assoc),
        fail_if-eq-ok _ _ known,
        kinds,
      )
