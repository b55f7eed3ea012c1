-- ===== src/Primitives/Transaction/Decode/Roundtrip.antt =====
-- The whole transaction of transaction.rs: decoding gives back what the encoding keeps.
use fluxd_rust.Prelude.{
  ℕ, ◌+◌, ◌/◌, ◌%◌, ◌^◌, ◌<◌, ◌≡◌, sym, ap, ◌∙◌, List, ◌++◌, Bool, true, false, not, ◌==◌,
  if◌then◌else◌, arith, append_assoc,
}
use fluxd_rust.Prelude.Int.{ℤ, pos, negsuc}
use fluxd_rust.Prelude.Result.{ok, ok-injective, >>=-eq-ok}
use fluxd_rust.Primitives.Bytes.{to_le_bytes, as_unsigned}
use fluxd_rust.Primitives.Encoding.{Encoder, new_encoder, into_inner, write_u32_le, new_decoder}
use fluxd_rust.Primitives.Encoding.Writes.{buf-write_u32_le, into_inner-buf, buf-new_encoder}
use fluxd_rust.Primitives.Encoding.Reads.{Reads, Reads-bind, Reads-read_u32_le}
use fluxd_rust.Primitives.Encoding.Ends.{Ends-Reads, is_empty-nil, unread-new_decoder}
use fluxd_rust.Primitives.Transaction.{Transaction, header, is_overwinter_v3, is_sapling_v4}
use fluxd_rust.Primitives.Transaction.Errors.{Reads-lift}
use fluxd_rust.Primitives.Transaction.Optional.{bytes_if, buf-write_if, Reads-read_if}
use fluxd_rust.Primitives.Transaction.Encode.{encode_into, encode_with_mode}
use fluxd_rust.Primitives.Transaction.Decode.{
  decode_group, decode_rest, decode_from, decode_with_mode,
}
use fluxd_rust.Primitives.Transaction.Decode.Kept.{IsTransaction, IsVersion, kept}
use fluxd_rust.Primitives.Transaction.Decode.Body.{ReadsBody, Decoded-encode_body}

-- The header's word, taken apart.
abbrev header_word : Bool → ℤ → ℕ
header_word f version =
    let word = as_unsigned (2 ^ 32) version in if f then word % 2 ^ 31 + 2 ^ 31 else word

header_fields :
    (f : Bool) (version : ℤ)
    → IsVersion version
    → (header_word f version < 2 ^ 32)
      × (not (header_word f version / 2 ^ 31 == 0) ≡ f)
      × (pos (header_word f version % 2 ^ 31) ≡ version)
header_fields true (pos n) h = (omega arith, ground arith, ap pos (omega arith))
header_fields false (pos n) h = (omega arith, ground arith, ap pos (omega arith))
header_fields f (negsuc n) h = absurd h

module _ (is_utf8 : List ℕ → Bool) (include_signatures : Bool) where
  Reads-decode_rest :
      (f : Bool) (version : ℤ) (group : ℕ) {bs : List ℕ} {tx : Transaction}
      → group < 2 ^ 32
      → ReadsBody is_utf8 include_signatures f version group
          (is_overwinter_v3 f group version)
          (is_sapling_v4 f group version)
          bs
          tx
      → Reads
          (decode_rest is_utf8 include_signatures f version)
          (bytes_if f (to_le_bytes 4 group) ++ bs)
          tx
  unfolding decode_rest
  Reads-decode_rest true version group range r =
      Reads-bind (decode_group is_utf8 include_signatures true version)
        (Reads-read_if true 0 (Reads-lift (Reads-read_u32_le group range))) r
  Reads-decode_rest false version group range r =
      Reads-bind (decode_group is_utf8 include_signatures false version)
        (Reads-read_if false 0 (Reads-lift (Reads-read_u32_le group range))) r

  -- The header gives the flag and the version back.
  Reads-header :
      (f : Bool) (version : ℤ) {bs : List ℕ} {tx : Transaction}
      → IsVersion version
      → Reads (decode_rest is_utf8 include_signatures f version) bs tx
      → Reads
          (decode_rest is_utf8 include_signatures
            (not (header_word f version / 2 ^ 31 == 0))
            (pos (header_word f version % 2 ^ 31)))
          bs
          tx
  Reads-header f version h r =
      let (fits, flag, number) = header_fields f version h in rw (flag, number) r

  Reads-decode_from :
      (f : Bool) (version : ℤ) {bs : List ℕ} {tx : Transaction}
      → IsVersion version
      → Reads (decode_rest is_utf8 include_signatures f version) bs tx
      → Reads
          (decode_from is_utf8 include_signatures)
          (to_le_bytes 4 (header_word f version) ++ bs)
          tx
  unfolding decode_from
  Reads-decode_from f version h r =
      Reads-bind _
        (Reads-lift (Reads-read_u32_le (header_word f version) (header_fields f version h).0))
        (Reads-header f version h r)

  -- What `encode_into` adds to a buffer is read back as what is kept.
  pub Reads-encode_into :
      (tx : Transaction) (e : Encoder) {e' : Encoder}
      → IsTransaction is_utf8 tx
      → encode_into tx include_signatures e ≡ ok e'
      → (bs : List ℕ) × (e'.buf ≡ e.buf ++ bs)
        × Reads (decode_from is_utf8 include_signatures) bs (kept tx include_signatures)
  unfolding encode_into header
  Reads-encode_into tx e h k =
      let f = tx.f_overwintered in
      let e₁ = write_u32_le (header_word f tx.version) e in
      let (bs, buf, r) = Decoded-encode_body is_utf8 include_signatures tx _ h k in
      (
        _,
        rw
            (
              buf,
              buf-write_if f (write_u32_le tx.version_group_id) _ e₁
                  (buf-write_u32_le e₁ tx.version_group_id),
              buf-write_u32_le e (header_word f tx.version),
            )
            (simp append_assoc),
        Reads-decode_from f tx.version h.version_range
            (Reads-decode_rest f tx.version tx.version_group_id h.version_group_id_range r),
      )

  pub Reads-encode_with_mode :
      (tx : Transaction) {bytes : List ℕ}
      → IsTransaction is_utf8 tx
      → encode_with_mode tx include_signatures ≡ ok bytes
      → Reads (decode_from is_utf8 include_signatures) bytes (kept tx include_signatures)
  unfolding encode_with_mode
  Reads-encode_with_mode tx {bytes} h k =
      let (e, p, q) =
        >>=-eq-ok (encode_into tx include_signatures new_encoder) (λ e. ok (into_inner e)) k in
      let (bs, buf, r) = Reads-encode_into tx new_encoder h p in
      let start : new_encoder.buf ++ bs ≡ bs = ap (λ (l : List ℕ). l ++ bs) buf-new_encoder in
      let all : bs ≡ bytes = sym (buf ∙ start) ∙ (sym (into_inner-buf e) ∙ ok-injective q) in
      rw (← all) r

  decode_with_mode-Reads :
      {bs : List ℕ} {tx : Transaction}
      → Reads (decode_from is_utf8 include_signatures) bs tx
      → decode_with_mode is_utf8 include_signatures bs ≡ ok tx
  unfolding decode_with_mode
  decode_with_mode-Reads {bs} r =
      let (d, e, end) = (Ends-Reads r).run (new_decoder bs) (unread-new_decoder bs) in
      rw (e, decode_with_mode, is_empty-nil d end)

  -- Where a transaction has the sizes and ranges of its fields' types and the reader's limits, the
  -- bytes that it is encoded to, with the signatures or without them, are decoded to the transaction
  -- as its format keeps it.
  pub decode_with_mode-encode_with_mode :
      (tx : Transaction) {bytes : List ℕ}
      → IsTransaction is_utf8 tx
      → encode_with_mode tx include_signatures ≡ ok bytes
      → decode_with_mode is_utf8 include_signatures bytes ≡ ok (kept tx include_signatures)
  decode_with_mode-encode_with_mode tx h k = decode_with_mode-Reads (Reads-encode_with_mode tx h k)
