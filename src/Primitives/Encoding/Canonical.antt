-- ===== src/Primitives/Encoding/Canonical.antt =====
-- What a successful read of encoding.rs says about its input.
use fluxd_rust.Prelude.{
  ℕ, ◌+◌, ◌-◌, ◌^◌, ◌≤◌, ◌<◌, ◌≡◌, refl, sym, ◌∙◌, List, [], ◌∷◌, ◌++◌, length, length-take,
  length-drop, take, drop, take-append-drop, ltb, ◌==◌, arith, inl, inr, Bool-cases,
}
use fluxd_rust.Prelude.Slices.{drop-add}
use fluxd_rust.Prelude.Result.{Result, ok, err}
use fluxd_rust.Primitives.Bytes.{
  IsBytes, IsBytes-append_left, to_le_bytes, from_le_bytes, to_le_bytes-from_le_bytes,
  from_le_bytes-lt,
}
use fluxd_rust.Primitives.Encoding.{
  Decoder, DecodeError, Reader, ◌>>=◌, ◌>>◌, pure, fail_if, read_slice, remaining, read_u8, first,
  read_u16_le, read_u32_le, read_u64_le, read_varint, varint_value, at_least, max_compact_size,
  size_too_large,
}
use fluxd_rust.Primitives.Encoding.Reads.{unread}
use fluxd_rust.Primitives.Encoding.Writes.{varint_bytes}

-- The reader goes through, with the value `a` and the decoder `d'`.
pub >>=-eq-ok :
    {A B : Type 0} (m : Reader A) (f : A → Reader B) (d : Decoder) {b : B} {d'' : Decoder}
    → (m >>= f) d ≡ ok (b, d'')
    → (p : A × Decoder) × (m d ≡ ok p) × (f p.0 p.1 ≡ ok (b, d''))
unfolding ◌>>=◌
>>=-eq-ok {A} {B} m f d {b} {d''} h = bind_inversion (m d) refl h
  where
    bind_inversion :
        (r : Result DecodeError (A × Decoder))
        → m d ≡ r
        → ◌≡◌ {A = Result DecodeError (B × Decoder)}
            (elim r [ ok (a, d') ↦ f a d' | err e ↦ err e ])
            (ok (b, d''))
        → (p : A × Decoder) × (m d ≡ ok p) × (f p.0 p.1 ≡ ok (b, d''))
    bind_inversion (ok p) e k = (p, e, k)
    bind_inversion (err x) e k = cc

-- A slice is taken from the front of what is left.
pub read_slice_consumes :
    (n : ℕ) (d : Decoder) {bs : List ℕ} {d' : Decoder}
    → read_slice n d ≡ ok (bs, d')
    → (length bs ≡ n) × (unread d ≡ bs ++ unread d')
unfolding read_slice unread remaining
read_slice_consumes n d {bs} {d'} h = elim (Bool-cases (ltb (length d.input - d.cursor) n)) [
  | inl short ↦ cc (rw short at h)
  | inr fits ↦
      let room : n ≤ length d.input - d.cursor = ground arith in
      let taken : ◌≡◌ {A = Result DecodeError (List ℕ × Decoder)}
          (ok (take n (drop d.cursor d.input), record d { cursor = d.cursor + n })) (ok (bs, d')) =
        rw fits at h in
      let e : take n (drop d.cursor d.input) ≡ bs = cc in
      let e' : record d { cursor = d.cursor + n } ≡ d' = cc in
      rw (← e, ← e')
        (
          omega
              (arith, length-take {0} n (drop d.cursor d.input), length-drop {0} d.cursor d.input),
          rw (drop-add d.cursor n d.input) (sym (take-append-drop n (drop d.cursor d.input))),
        )
]

-- The integer readers: `k` bytes from the front.
module _ (k : ℕ) (d : Decoder) {v : ℕ} {d' : Decoder} where
  read_le_consumes :
      (read_slice k >>= λ bytes. pure (from_le_bytes bytes)) d ≡ ok (v, d')
      → IsBytes (unread d)
      → (v < 256 ^ k) × (unread d ≡ to_le_bytes k v ++ unread d')
  unfolding pure
  read_le_consumes h bytes =
      let ((bs, d₁), e, e') = >>=-eq-ok (read_slice k) (λ bytes. pure (from_le_bytes bytes)) d h in
      let (len, split) = read_slice_consumes k d e in
      let value : from_le_bytes bs ≡ v = cc in
      let same : d₁ ≡ d' = cc in
      let good : IsBytes bs = IsBytes-append_left bs (unread d₁) (rw split at bytes) in
      rw (← value, ← same, ← len)
        (from_le_bytes-lt bs good, rw (to_le_bytes-from_le_bytes bs good) split)

module _ (d : Decoder) {v : ℕ} {d' : Decoder} (bytes : IsBytes (unread d)) where
  pub read_u8_consumes : read_u8 d ≡ ok (v, d') → (v < 256) × (unread d ≡ v ∷ unread d')
  unfolding read_u8 first pure
  read_u8_consumes h =
      let ((bs, d₁), e, e') = >>=-eq-ok (read_slice 1) (λ bytes. pure (first bytes)) d h in
      let (len, split) = read_slice_consumes 1 d e in one_byte bs d₁ len split e'
    where
      one_byte :
          (bs : List ℕ) (d₁ : Decoder)
          → length bs ≡ 1
          → unread d ≡ bs ++ unread d₁
          → pure {E = DecodeError} (first bs) d₁ ≡ ok (v, d')
          → (v < 256) × (unread d ≡ v ∷ unread d')
      one_byte [] d₁ len split e = absurd (omega arith)
      one_byte (b ∷ []) d₁ len split e =
          let value : b ≡ v = cc in
          let same : d₁ ≡ d' = cc in
          let good : IsBytes (b ∷ unread d₁) = rw split at bytes in
          rw (← value, ← same) (good.0, split)
      one_byte (b ∷ c ∷ bs) d₁ len split e = absurd (omega arith)

  pub read_u16_le_consumes :
      read_u16_le d ≡ ok (v, d') → (v < 2 ^ 16) × (unread d ≡ to_le_bytes 2 v ++ unread d')
  unfolding read_u16_le
  read_u16_le_consumes h = read_le_consumes 2 d h bytes

  pub read_u32_le_consumes :
      read_u32_le d ≡ ok (v, d') → (v < 2 ^ 32) × (unread d ≡ to_le_bytes 4 v ++ unread d')
  unfolding read_u32_le
  read_u32_le_consumes h = read_le_consumes 4 d h bytes

  pub read_u64_le_consumes :
      read_u64_le d ≡ ok (v, d') → (v < 2 ^ 64) × (unread d ≡ to_le_bytes 8 v ++ unread d')
  unfolding read_u64_le
  read_u64_le_consumes h = read_le_consumes 8 d h bytes

-- A guarded value comes out as it went in.
at_least_value :
    (low v : ℕ) (d : Decoder) {w : ℕ} {d' : Decoder}
    → at_least low v d ≡ ok (w, d')
    → (low ≤ v) × (v ≡ w) × (d ≡ d')
unfolding at_least pure fail_if ◌>>◌
at_least_value low v d {w} {d'} h = elim (Bool-cases (ltb v low)) [
  | inl bad ↦ cc (rw (bad, ◌>>=◌) at h)
  | inr good ↦
      let e : ◌≡◌ {A = Result DecodeError (ℕ × Decoder)} (ok (v, d)) (ok (w, d')) =
        rw (good, ◌>>=◌) at h in
      (ground arith, cc, cc)
]

checked_value :
    (m : Reader ℕ) (low : ℕ) (d : Decoder) {v : ℕ} {d' : Decoder}
    → (m >>= at_least low) d ≡ ok (v, d')
    → (m d ≡ ok (v, d')) × (low ≤ v)
checked_value m low d h =
    let ((w, d₁), e, e') = >>=-eq-ok m (at_least low) d h in
    let (le, same, at) = at_least_value low w d₁ e' in (e ∙ (λ i. ok (same i, at i)), rw same at le)

-- The value fits the prefix, and is written as that prefix and the bytes that were read.
varint_value_consumes :
    (prefix : ℕ) (d : Decoder) {v : ℕ} {d' : Decoder}
    → prefix < 256
    → IsBytes (unread d)
    → varint_value prefix d ≡ ok (v, d')
    → prefix ∷ unread d ≡ varint_bytes v ++ unread d'
unfolding varint_value varint_bytes pure
varint_value_consumes prefix d {v} {d'} p bytes h = elim (Bool-cases (ltb prefix 0xfd)) [
  | inl small ↦
      let e : ◌≡◌ {A = Result DecodeError (ℕ × Decoder)} (ok (prefix, d)) (ok (v, d')) =
        rw small at h in
      let value : prefix ≡ v = cc in let same : d ≡ d' = cc in rw (← value, ← same, small)
  | inr large ↦ elim (Bool-cases (prefix == 0xfd)) [
    | inl two ↦
        let (e, low) = checked_value read_u16_le 0xfd d (rw (large, two) at h) in
        let (high, split) = read_u16_le_consumes d bytes e in ground (arith, split)
    | inr more ↦ elim (Bool-cases (prefix == 0xfe)) [
      | inl four ↦
          let (e, low) = checked_value read_u32_le 0x1_0000 d (rw (large, more, four) at h) in
          let (high, split) = read_u32_le_consumes d bytes e in ground (arith, split)
      | inr eight ↦
          let (e, low) = checked_value read_u64_le 0x1_0000_0000 d (rw (large, more, eight) at h) in
          let (high, split) = read_u64_le_consumes d bytes e in ground (arith, split)
    ]
  ]
]

size_checked :
    (v : ℕ) (d : Decoder) {w : ℕ} {d' : Decoder}
    → (fail_if (ltb max_compact_size v) size_too_large >> pure v) d ≡ ok (w, d')
    → (v ≤ max_compact_size) × (v ≡ w) × (d ≡ d')
unfolding pure fail_if ◌>>◌
size_checked v d {w} {d'} h = elim (Bool-cases (ltb max_compact_size v)) [
  | inl bad ↦ cc (rw (bad, ◌>>=◌) at h)
  | inr good ↦
      let e : ◌≡◌ {A = Result DecodeError (ℕ × Decoder)} (ok (v, d)) (ok (w, d')) =
        rw (good, ◌>>=◌) at h in
      (ground arith, cc, cc)
]

-- What `write_varint` writes stands in front, for a value up to the maximum.
pub read_varint_canonical :
    (d : Decoder) {v : ℕ} {d' : Decoder}
    → IsBytes (unread d)
    → read_varint d ≡ ok (v, d')
    → (v ≤ max_compact_size) × (unread d ≡ varint_bytes v ++ unread d')
unfolding read_varint
read_varint_canonical d {v} {d'} bytes h =
    let ((prefix, d₁), e₁, h₁) =
      >>=-eq-ok read_u8
        (λ prefix. varint_value prefix >>= λ value.
          fail_if (ltb max_compact_size value) size_too_large >> pure value)
        d h in
    let (byte, split) = read_u8_consumes d bytes e₁ in
    let good : IsBytes (prefix ∷ unread d₁) = rw split at bytes in
    let ((w, d₂), e₂, h₂) =
      >>=-eq-ok (varint_value prefix)
        (λ value. fail_if (ltb max_compact_size value) size_too_large >> pure value) d₁ h₁ in
    let (small, value, same) = size_checked w d₂ h₂ in
    let whole : prefix ∷ unread d₁ ≡ varint_bytes w ++ unread d₂ =
      varint_value_consumes prefix d₁ byte good.1 e₂ in
    (rw value at small, split ∙ (rw (value, same) at whole))
