-- ===== src/Primitives/Encoding/Reads.antt =====
-- `Reads m bs a`: the reader `m`, before the bytes `bs`, returns `a` and stops behind them.
use fluxd_rust.Prelude.{
  ℕ, ◌+◌, ◌-◌, ◌^◌, ◌<◌, ◌≡◌, refl, ap, ◌∙◌, List, [], ◌∷◌, ◌++◌, append_assoc, append-nil, Bool,
  false, length, length-append, drop, length-drop, ltb, arith,
}
use fluxd_rust.Prelude.Slices.{take-append, drop-append, drop-add}
use fluxd_rust.Prelude.Int.{ℤ}
use fluxd_rust.Prelude.Result.{ok}
use fluxd_rust.Primitives.Bytes.{
  to_le_bytes, from_le_bytes, as_unsigned, as_signed, IsSigned, as_unsigned-lt,
  as_signed-as_unsigned, length-to_le_bytes, from_le_bytes-to_le_bytes,
}
use fluxd_rust.Primitives.Encoding.{
  Decoder, ReaderOf, ◌>>=◌, ◌>>◌, pure, fail_if, read_slice, read_u8, read_u16_le, read_u32_le,
  read_i32_le, read_u64_le, read_i64_le, read_fixed, read_bytes, read_hash_le, read_many, remaining,
  first,
}

-- The bytes that are still to be read.
unfoldable pub unread : Decoder → List ℕ
unread d = drop d.cursor d.input

pub record Reads {E A : Type 0} (m : ReaderOf E A) (bs : List ℕ) (a : A) : Type 0 where
  pub run :
      (d : Decoder) (more : List ℕ)
      → unread d ≡ bs ++ more
      → (d' : Decoder) × (m d ≡ ok (a, d')) × (unread d' ≡ more)

pub length-unread : (d : Decoder) → length (unread d) ≡ remaining d
unfolding unread remaining
length-unread d = length-drop d.cursor d.input

pub Reads-read_slice : (n : ℕ) (bs : List ℕ) → length bs ≡ n → Reads (read_slice n) bs bs
unfolding read_slice unread remaining
Reads-read_slice n bs e = record {
  run = λ d more h.
      let room : length bs + length more ≡ length d.input - d.cursor = omega (
        arith,
        ap (λ (l : List ℕ). length l) h,
        length-append {0} bs more,
        length-drop {0} d.cursor d.input,
      ) in
      let fits : ltb (length d.input - d.cursor) n ≡ false = ground arith in
      (
        record d { cursor = d.cursor + n },
        rw (fits, h, take-append n bs more e),
        rw (drop-add d.cursor n d.input, h) (drop-append n bs more e),
      );
}

pub Reads-bind :
    {E A B : Type 0} {m : ReaderOf E A} (f : A → ReaderOf E B) {bs cs : List ℕ} {a : A} {b : B}
    → Reads m bs a
    → Reads (f a) cs b
    → Reads (m >>= f) (bs ++ cs) b
unfolding ◌>>=◌
Reads-bind f {bs} {cs} r s = record {
  run = λ d more h.
      let (d', e', h') = r.run d (cs ++ more) (h ∙ append_assoc bs cs more) in
      let (d'', e'', h'') = s.run d' more h' in (d'', rw (e', ◌>>=◌) e'', h'');
}

pub Reads-pure : {E A : Type 0} (a : A) → Reads {E = E} (pure a) [] a
unfolding pure
Reads-pure a = record { run = λ d more h. (d, refl, h) }

pub Reads-fail_if : {E : Type 0} {b : Bool} (e : E) → b ≡ false → Reads (fail_if b e) [] tt
unfolding fail_if
Reads-fail_if e h = record { run = λ d more k. (d, rw h, k) }

pub Reads-then :
    {E B : Type 0} {m : ReaderOf E (Unit {0})} {k : ReaderOf E B} {bs : List ℕ} {b : B}
    → Reads m [] tt
    → Reads k bs b
    → Reads (m >> k) bs b
unfolding ◌>>◌
Reads-then {k} r s = Reads-bind (λ _. k) r s

-- A reader that ends in a pure function of what another one reads.
pub Reads-map :
    {E A B : Type 0} {m : ReaderOf E A} (f : A → B) {bs : List ℕ} {a : A} {b : B}
    → Reads m bs a
    → f a ≡ b
    → Reads (m >>= λ x. pure (f x)) bs b
Reads-map f {bs} {a} r e =
    rw (← e, ← append-nil bs) (Reads-bind (λ x. pure (f x)) r (Reads-pure (f a)))

pub Reads-read_u8 : (v : ℕ) → Reads read_u8 (v ∷ []) v
unfolding read_u8 first
Reads-read_u8 v = Reads-map first (Reads-read_slice 1 (v ∷ []) refl) refl

pub Reads-read_u16_le : (v : ℕ) → v < 2 ^ 16 → Reads read_u16_le (to_le_bytes 2 v) v
unfolding read_u16_le
Reads-read_u16_le v h =
    Reads-map from_le_bytes (Reads-read_slice 2 _ (length-to_le_bytes 2 v))
      (from_le_bytes-to_le_bytes 2 v h)

pub Reads-read_u32_le : (v : ℕ) → v < 2 ^ 32 → Reads read_u32_le (to_le_bytes 4 v) v
unfolding read_u32_le
Reads-read_u32_le v h =
    Reads-map from_le_bytes (Reads-read_slice 4 _ (length-to_le_bytes 4 v))
      (from_le_bytes-to_le_bytes 4 v h)

pub Reads-read_u64_le : (v : ℕ) → v < 2 ^ 64 → Reads read_u64_le (to_le_bytes 8 v) v
unfolding read_u64_le
Reads-read_u64_le v h =
    Reads-map from_le_bytes (Reads-read_slice 8 _ (length-to_le_bytes 8 v))
      (from_le_bytes-to_le_bytes 8 v h)

pub Reads-read_i32_le :
    (z : ℤ) → IsSigned (2 ^ 32) z → Reads read_i32_le (to_le_bytes 4 (as_unsigned (2 ^ 32) z)) z
unfolding read_i32_le
Reads-read_i32_le z h =
    Reads-map (as_signed (2 ^ 32)) (Reads-read_u32_le _ (as_unsigned-lt (2 ^ 32) z (omega arith) h))
      (as_signed-as_unsigned (2 ^ 32) z h)

pub Reads-read_i64_le :
    (z : ℤ) → IsSigned (2 ^ 64) z → Reads read_i64_le (to_le_bytes 8 (as_unsigned (2 ^ 64) z)) z
unfolding read_i64_le
Reads-read_i64_le z h =
    Reads-map (as_signed (2 ^ 64)) (Reads-read_u64_le _ (as_unsigned-lt (2 ^ 64) z (omega arith) h))
      (as_signed-as_unsigned (2 ^ 64) z h)

pub Reads-read_fixed : (n : ℕ) (bs : List ℕ) → length bs ≡ n → Reads (read_fixed n) bs bs
unfolding read_fixed
Reads-read_fixed n bs h = Reads-read_slice n bs h

pub Reads-read_bytes : (n : ℕ) (bs : List ℕ) → length bs ≡ n → Reads (read_bytes n) bs bs
unfolding read_bytes
Reads-read_bytes n bs h = Reads-read_slice n bs h

pub Reads-read_hash_le : (hash : List ℕ) → length hash ≡ 32 → Reads read_hash_le hash hash
unfolding read_hash_le
Reads-read_hash_le hash h = Reads-read_slice 32 hash h

-- Lists of values that are written one after the other.
abbrev pub concat_map : {A : Type 0} → (A → List ℕ) → List A → List ℕ
concat_map f [] = []
concat_map f (x ∷ xs) = f x ++ concat_map f xs

abbrev pub All : {A : Type 0} → (A → Type 0) → List A → Type 0
All P [] = Unit {0}
All P (x ∷ xs) = P x × All P xs

pub Reads-read_many :
    {E A : Type 0} {m : ReaderOf E A} (f : A → List ℕ) (P : A → Type 0)
    → ((a : A) → P a → Reads m (f a) a)
    → (xs : List A) → All P xs
    → Reads (read_many (length xs) m) (concat_map f xs) xs
unfolding read_many
Reads-read_many f P each [] h = Reads-pure []
Reads-read_many {m} f P each (x ∷ xs) h =
    Reads-bind (λ a. read_many (length xs) m >>= λ rest. pure (a ∷ rest)) (each x h.0)
      (Reads-map (λ rest. x ∷ rest) (Reads-read_many f P each xs h.1) refl)
