-- ===== src/Primitives/Transaction/Decode/Body.antt =====
-- The body behind the header of transaction.rs: the two fluxnode versions and the other formats.
use Prim.Native.String.{String}
use fluxd_rust.Prelude.{
  ℕ, ◌≡◌, refl, List, ◌++◌, Bool, true, false, not, ◌&&◌, ◌||◌, Option, none, some, if◌then◌else◌,
  inl, inr, Bool-cases,
}
use fluxd_rust.Prelude.Int.{ℤ, pos, eq_ℤ}
use fluxd_rust.Prelude.Result.{ok, err}
use fluxd_rust.Primitives.Encoding.{Encoder, ReaderOf, ◌>>=◌, ◌>>◌, pure}
use fluxd_rust.Primitives.Encoding.Reads.{Reads, Reads-map, Reads-then, Reads-fail_if}
use fluxd_rust.Primitives.FluxnodeTransaction.{FluxnodeTx, v5, v6}
use fluxd_rust.Primitives.FluxnodeTransaction.Encode.{encode_fluxnode_v5, encode_fluxnode_v6}
use fluxd_rust.Primitives.FluxnodeTransaction.Decode.Roundtrip.{decode_fluxnode_v5-encode}
use fluxd_rust.Primitives.FluxnodeTransaction.Decode.StartV6.{decode_fluxnode_v6-encode}
use fluxd_rust.Primitives.Transaction.{Transaction, is_overwinter_v3, is_sapling_v4}
use fluxd_rust.Primitives.Transaction.Errors.{
  TransactionDecodeError, invalid_format, invalid_transaction_format, Reads-lift,
}
use fluxd_rust.Primitives.Transaction.Encode.{encode_present, encode_payload, encode_body}
use fluxd_rust.Primitives.Transaction.Decode.{
  payload_transaction, by_version, decode_body, not_overwintered,
}
use fluxd_rust.Primitives.Transaction.Decode.Kept.{
  IsTransaction, IsFluxnode, kept, kept_payload, kept_group,
}
use fluxd_rust.Primitives.Transaction.Decode.Formats.{formats_bytes, encode_formats_lem}
use fluxd_rust.Primitives.Transaction.Decode.Reading.{Reads-decode_formats}

module _ (is_utf8 : List ℕ → Bool) (include_signatures : Bool) where
  -- Where a decoding of the body stands, with the flag and the group that were read.
  abbrev pub ReadsBody : Bool → ℤ → ℕ → Bool → Bool → List ℕ → Transaction → Type 0
  ReadsBody f version group v3 v4 bs tx =
      Reads (decode_body is_utf8 include_signatures f version (if f then group else 0) v3 v4) bs tx

  abbrev pub Decoded : Bool → ℤ → ℕ → Bool → Bool → Encoder → Encoder → Transaction → Type 0
  Decoded f version group v3 v4 e e' tx =
      (bs : List ℕ) × (e'.buf ≡ e.buf ++ bs) × ReadsBody f version group v3 v4 bs tx

  -- The test of the format.
  Reads-decode_body :
      (f : Bool) (version : ℤ) (group : ℕ) (v3 v4 : Bool) {bs : List ℕ} {tx : Transaction}
      → (f && not (v3 || v4)) ≡ false
      → Reads (by_version is_utf8 include_signatures f version group v3 v4) bs tx
      → Reads (decode_body is_utf8 include_signatures f version group v3 v4) bs tx
  unfolding decode_body
  Reads-decode_body f version group v3 v4 known r =
      Reads-then
        (Reads-fail_if (invalid_transaction_format "unknown overwinter transaction format") known) r

  Reads-payload :
      {A : Type 0} {m : ReaderOf TransactionDecodeError A} {bs : List ℕ} {a : A}
      (f : A → Transaction)
      → Reads m bs a
      → Reads
          (not_overwintered is_utf8 include_signatures false >> (m >>= λ a. pure (f a)))
          bs
          (f a)
  unfolding not_overwintered
  Reads-payload f r =
      Reads-then
        (Reads-fail_if (invalid_transaction_format "fluxnode tx must not be overwintered") refl)
        (Reads-map f r refl)

  -- The two versions of a fluxnode transaction.
  module _ (tx : Transaction) (group : ℕ) (v3 v4 : Bool) (missing : String) (e : Encoder) where
    payload_v5 :
        (f : Bool) (o : Option FluxnodeTx) {e' : Encoder}
        → IsFluxnode is_utf8 o
        → eq_ℤ tx.version (pos 5) ≡ true
        → (if f
            then err (invalid_format "fluxnode tx must not be overwintered")
            else encode_present encode_fluxnode_v5 missing include_signatures o e)
          ≡ ok e'
        → Decoded f tx.version group v3 v4 e e' (kept_payload tx include_signatures o)
    unfolding encode_present by_version encode_fluxnode_v5
    payload_v5 true o h five k = cc
    payload_v5 false none h five k = cc
    payload_v5 false (some (v6 body)) h five k = cc
    payload_v5 false (some (v5 body)) h five k =
        let (bs, buf, r) = decode_fluxnode_v5-encode is_utf8 include_signatures body e h k in
        (
          bs,
          buf,
          Reads-decode_body false tx.version 0 v3 v4 refl
              (rw five (Reads-payload (λ b. payload_transaction false tx.version 0 (v5 b)) r)),
        )

    payload_v6 :
        (f : Bool) (o : Option FluxnodeTx) {e' : Encoder}
        → IsFluxnode is_utf8 o
        → eq_ℤ tx.version (pos 5) ≡ false
        → eq_ℤ tx.version (pos 6) ≡ true
        → (if f
            then err (invalid_format "fluxnode tx must not be overwintered")
            else encode_present encode_fluxnode_v6 missing include_signatures o e)
          ≡ ok e'
        → Decoded f tx.version group v3 v4 e e' (kept_payload tx include_signatures o)
    unfolding encode_present by_version encode_fluxnode_v6
    payload_v6 true o h five six k = cc
    payload_v6 false none h five six k = cc
    payload_v6 false (some (v5 body)) h five six k = cc
    payload_v6 false (some (v6 body)) h five six k =
        let (bs, buf, r) = decode_fluxnode_v6-encode is_utf8 include_signatures body e h k in
        (
          bs,
          buf,
          Reads-decode_body false tx.version 0 v3 v4 refl (
              rw (five, six)
                (Reads-payload (λ b. payload_transaction false tx.version 0 (v6 b)) r)),
        )

  -- Whatever body the encoder writes is decoded to what is kept.
  pub Decoded-encode_body :
      (tx : Transaction) (e : Encoder) {e' : Encoder}
      → IsTransaction is_utf8 tx
      → encode_body tx include_signatures e ≡ ok e'
      → Decoded tx.f_overwintered tx.version tx.version_group_id
          (is_overwinter_v3 tx.f_overwintered tx.version_group_id tx.version)
          (is_sapling_v4 tx.f_overwintered tx.version_group_id tx.version)
          e
          e'
          (kept tx include_signatures)
  unfolding encode_body encode_payload kept by_version
  Decoded-encode_body tx e h k =
      let f = tx.f_overwintered in
      let group = tx.version_group_id in
      let v3 = is_overwinter_v3 f group tx.version in
      let v4 = is_sapling_v4 f group tx.version in
      elim (Bool-cases (eq_ℤ tx.version (pos 5))) [
        | inl five ↦
            rw five
              (payload_v5 tx group v3 v4 _ e f tx.fluxnode h.fluxnode_sizes five (rw five at k))
        | inr not_five ↦ elim (Bool-cases (eq_ℤ tx.version (pos 6))) [
          | inl six ↦
              rw (not_five, six)
                (payload_v6 tx group v3 v4 _ e f tx.fluxnode h.fluxnode_sizes not_five six
                  (rw (not_five, six) at k))
          | inr not_six ↦
              let (buf, known, kinds) =
                encode_formats_lem tx v3 v4 e (rw (not_five, not_six) at k) in
              rw (not_five, not_six)
                (
                  formats_bytes tx v3 v4,
                  buf,
                  Reads-decode_body f tx.version (kept_group tx) v3 v4 known (
                      rw (not_five, not_six)
                        (Reads-lift (Reads-decode_formats is_utf8 tx h v3 v4 kinds))),
                )
        ]
      ]
