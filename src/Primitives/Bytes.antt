-- ===== src/Primitives/Bytes.antt =====
-- `to_le_bytes` and `from_le_bytes` of the unsigned integer types, and the `as` casts between
-- signed and unsigned ones. A byte is a number below 256.
use fluxd_rust.Prelude.{
  ℕ, zero, suc, ◌+◌, ◌-◌, ◌*◌, ◌/◌, ◌%◌, ◌^◌, ◌≤◌, ◌<◌, ◌≡◌, refl, ap, List, [], ◌∷◌, ◌++◌, arith,
  length, take, drop, take-append-drop, ltb, if◌then◌else◌,
}
use fluxd_rust.Prelude.Int.{ℤ, pos, negsuc}
use native.Mathlib.Nat.{pow-suc}

abbrev pub IsBytes : List ℕ → Type 0
IsBytes [] = Unit {0}
IsBytes (b ∷ bs) = (b < 256) × IsBytes bs

pub IsBytes-append : (xs ys : List ℕ) → IsBytes xs → IsBytes ys → IsBytes (xs ++ ys)
IsBytes-append [] ys h k = k
IsBytes-append (x ∷ xs) ys h k = (h.0, IsBytes-append xs ys h.1 k)

pub IsBytes-append_left : (xs ys : List ℕ) → IsBytes (xs ++ ys) → IsBytes xs
IsBytes-append_left [] ys h = tt
IsBytes-append_left (x ∷ xs) ys h = (h.0, IsBytes-append_left xs ys h.1)

pub IsBytes-append_right : (xs ys : List ℕ) → IsBytes (xs ++ ys) → IsBytes ys
IsBytes-append_right [] ys h = h
IsBytes-append_right (x ∷ xs) ys h = IsBytes-append_right xs ys h.1

pub IsBytes-take : (n : ℕ) (xs : List ℕ) → IsBytes xs → IsBytes (take n xs)
IsBytes-take n xs h = IsBytes-append_left (take n xs) (drop n xs) (rw (take-append-drop n xs) h)

pub IsBytes-drop : (n : ℕ) (xs : List ℕ) → IsBytes xs → IsBytes (drop n xs)
IsBytes-drop n xs h = IsBytes-append_right (take n xs) (drop n xs) (rw (take-append-drop n xs) h)

-- The `k` bytes of a number, lowest first.
unfoldable pub to_le_bytes : ℕ → ℕ → List ℕ
to_le_bytes zero v = []
to_le_bytes (suc k) v = (v % 256) ∷ to_le_bytes k (v / 256)

unfoldable pub from_le_bytes : List ℕ → ℕ
from_le_bytes [] = 0
from_le_bytes (b ∷ bs) = b + 256 * from_le_bytes bs

pub length-to_le_bytes : (k v : ℕ) → length (to_le_bytes k v) ≡ k
unfolding to_le_bytes
length-to_le_bytes zero v = refl
length-to_le_bytes (suc k) v = ap suc (length-to_le_bytes k (v / 256))

pub to_le_bytes-IsBytes : (k v : ℕ) → IsBytes (to_le_bytes k v)
unfolding to_le_bytes
to_le_bytes-IsBytes zero v = tt
to_le_bytes-IsBytes (suc k) v = (omega arith, to_le_bytes-IsBytes k (v / 256))

pub from_le_bytes-to_le_bytes : (k v : ℕ) → v < 256 ^ k → from_le_bytes (to_le_bytes k v) ≡ v
unfolding to_le_bytes from_le_bytes
from_le_bytes-to_le_bytes zero v h = omega arith
from_le_bytes-to_le_bytes (suc k) v h =
    omega
      (arith, pow-suc 256 k, from_le_bytes-to_le_bytes k (v / 256) (omega (arith, pow-suc 256 k)))

pub to_le_bytes-from_le_bytes :
    (bs : List ℕ) → IsBytes bs → to_le_bytes (length bs) (from_le_bytes bs) ≡ bs
unfolding to_le_bytes from_le_bytes
to_le_bytes-from_le_bytes [] h = refl
to_le_bytes-from_le_bytes (b ∷ bs) h =
    let low : (b + 256 * from_le_bytes bs) % 256 ≡ b = omega arith in
    let high : (b + 256 * from_le_bytes bs) / 256 ≡ from_le_bytes bs = omega arith in
    rw (low, high) (ap (λ t. b ∷ t) (to_le_bytes-from_le_bytes bs h.1))

pub to_le_bytes-from_le_bytes_of :
    (k : ℕ) (bs : List ℕ) → IsBytes bs → length bs ≡ k → to_le_bytes k (from_le_bytes bs) ≡ bs
to_le_bytes-from_le_bytes_of k bs h e = rw (← e) (to_le_bytes-from_le_bytes bs h)

pub from_le_bytes-lt : (bs : List ℕ) → IsBytes bs → from_le_bytes bs < 256 ^ length bs
unfolding from_le_bytes
from_le_bytes-lt [] h = omega arith
from_le_bytes-lt (b ∷ bs) h = omega (arith, pow-suc 256 (length bs), from_le_bytes-lt bs h.1)

-- `value as u64` for a signed value of the same width: two's complement over the modulus `m`.
abbrev pub as_unsigned : ℕ → ℤ → ℕ
as_unsigned m (pos n) = n
as_unsigned m (negsuc n) = m - n - 1

-- `value as i64` for an unsigned value of the same width.
abbrev pub as_signed : ℕ → ℕ → ℤ
as_signed m n = if ltb (n * 2) m then pos n else negsuc (m - n - 1)

-- The values of the signed type whose modulus is `m`.
abbrev pub IsSigned : ℕ → ℤ → Type 0
IsSigned m (pos n) = n * 2 < m
IsSigned m (negsuc n) = n * 2 + 2 ≤ m

pub as_unsigned-lt : (m : ℕ) (z : ℤ) → 0 < m → IsSigned m z → as_unsigned m z < m
as_unsigned-lt m (pos n) p h = omega arith
as_unsigned-lt m (negsuc n) p h = omega arith

pub as_signed-as_unsigned : (m : ℕ) (z : ℤ) → IsSigned m z → as_signed m (as_unsigned m z) ≡ z
as_signed-as_unsigned m (pos n) h = ground arith
as_signed-as_unsigned m (negsuc n) h = ground arith
