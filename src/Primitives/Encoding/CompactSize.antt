-- ===== src/Primitives/Encoding/CompactSize.antt =====
-- `read_varint` and `write_varint` of encoding.rs as each other's inverses.
use fluxd_rust.Prelude.{
  ℕ, ◌^◌, ◌≤◌, ◌<◌, ◌≡◌, sym, ◌∙◌, List, ◌++◌, append-nil, true, ltb, leb, if◌then◌else◌, arith,
  inl, inr, Bool-cases,
}
use fluxd_rust.Prelude.Result.{ok, err}
use fluxd_rust.Primitives.Bytes.{IsBytes}
use fluxd_rust.Primitives.Encoding.{
  new_encoder, into_inner, write_varint, Decoder, new_decoder, Reader, ◌>>=◌, ◌>>◌, fail_if,
  read_varint, decode, finish, max_compact_size, DecodeError, size_too_large,
}
use fluxd_rust.Primitives.Encoding.Writes.{writes, varint_bytes}
use fluxd_rust.Primitives.Encoding.Reads.{unread, Reads-read_u8}
use fluxd_rust.Primitives.Encoding.VarInt.{
  Reads-read_varint, Reads-varint_value, varint_prefix, varint_tail, varint_bytes-split,
}
use fluxd_rust.Primitives.Encoding.Canonical.{read_varint_canonical}
use fluxd_rust.Primitives.Encoding.Ends.{unread-new_decoder, decode-Reads}

into_inner-write_varint : (v : ℕ) → into_inner (write_varint v new_encoder) ≡ varint_bytes v
into_inner-write_varint v = simp writes

-- A compact size that is read from bytes is at most the maximum, and what was read is exactly what
-- `write_varint` writes for it: no other bytes are accepted for the value.
pub write_varint-read_varint :
    (d : Decoder) {v : ℕ} {d' : Decoder}
    → IsBytes (unread d)
    → read_varint d ≡ ok (v, d')
    → (v ≤ max_compact_size) × (unread d ≡ into_inner (write_varint v new_encoder) ++ unread d')
write_varint-read_varint d {v} bytes h =
    rw (into_inner-write_varint v) (read_varint_canonical d bytes h)

-- The test of the size comes behind the whole number.
too_large :
    (v : ℕ) (d : Decoder)
    → unread d ≡ varint_bytes v
    → v < 2 ^ 64
    → max_compact_size < v
    → read_varint d ≡ err size_too_large
unfolding read_varint fail_if ◌>>◌
too_large v d at range big =
    let (d₁, e₁, h₁) =
      (Reads-read_u8 (varint_prefix v)).run d (varint_tail v) (at ∙ sym (varint_bytes-split v)) in
    let (d₂, e₂, h₂) =
      (Reads-varint_value v range).run d₁ _ (h₁ ∙ sym (append-nil (varint_tail v))) in
    let t : ltb max_compact_size v ≡ true = ground arith in rw (◌>>=◌, e₁, e₂, t)

decode-err :
    (m : Reader ℕ) (bytes : List ℕ) {e : DecodeError}
    → m (new_decoder bytes) ≡ err e
    → decode m bytes ≡ err e
unfolding decode ◌>>=◌
decode-err m bytes {e} h =
    let bound : (m >>= finish) (new_decoder bytes) ≡ err e = rw (◌>>=◌, h) in rw (decode, bound)

-- A u64 that `write_varint` wrote is read back, or refused if it is above the maximal compact size.
pub read_varint-write_varint :
    (v : ℕ)
    → v < 2 ^ 64
    → decode read_varint (into_inner (write_varint v new_encoder))
      ≡ (if leb v max_compact_size then ok v else err size_too_large)
read_varint-write_varint v h = elim (Bool-cases (leb v max_compact_size)) [
  | inl small ↦
      rw (into_inner-write_varint v, small) (decode-Reads (Reads-read_varint v (ground arith)))
  | inr large ↦
      let e : read_varint (new_decoder (varint_bytes v)) ≡ err size_too_large =
        too_large v _ (unread-new_decoder (varint_bytes v)) h (ground arith) in
      rw (into_inner-write_varint v, large) (decode-err read_varint (varint_bytes v) e)
]
