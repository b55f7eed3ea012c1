-- ===== src/Primitives/Encoding/Ends.antt =====
-- `Ends m bs a`: the reader `m`, where exactly the bytes `bs` are left, returns `a` and leaves
-- nothing. Unlike `Reads` this holds of readers that look whether the input is at its end.
use fluxd_rust.Prelude.{
  ℕ, ◌≤◌, ◌<◌, ◌≡◌, refl, sym, ap, ◌∙◌, List, [], ◌++◌, append-nil, true, false, length,
  length-append, drop, length-drop, arith,
}
use fluxd_rust.Prelude.Result.{ok}
use fluxd_rust.Primitives.Encoding.{
  Decoder, new_decoder, Reader, ReaderOf, ◌>>=◌, pure, finish, decode, is_empty, if_empty,
}
use fluxd_rust.Primitives.Encoding.Reads.{Reads, unread}

pub record Ends {E A : Type 0} (m : ReaderOf E A) (bs : List ℕ) (a : A) : Type 0 where
  pub run : (d : Decoder) → unread d ≡ bs → (d' : Decoder) × (m d ≡ ok (a, d')) × (unread d' ≡ [])

pub Ends-Reads :
    {E A : Type 0} {m : ReaderOf E A} {bs : List ℕ} {a : A} → Reads m bs a → Ends m bs a
Ends-Reads {bs} r = record { run = λ d h. r.run d [] (h ∙ sym (append-nil bs)) }

pub Ends-bind :
    {E A B : Type 0} {m : ReaderOf E A} (f : A → ReaderOf E B) {bs cs : List ℕ} {a : A} {b : B}
    → Reads m bs a
    → Ends (f a) cs b
    → Ends (m >>= f) (bs ++ cs) b
unfolding ◌>>=◌
Ends-bind f {cs} r s = record {
  run = λ d h.
      let (d', e', h') = r.run d cs h in
      let (d'', e'', h'') = s.run d' h' in (d'', rw (e', ◌>>=◌) e'', h'');
}

-- What follows a reader that took the last bytes reads on at the end.
pub Ends-bind_end :
    {E A B : Type 0} {m : ReaderOf E A} (f : A → ReaderOf E B) {bs : List ℕ} {a : A} {b : B}
    → Ends m bs a
    → Ends (f a) [] b
    → Ends (m >>= f) bs b
unfolding ◌>>=◌
Ends-bind_end f r s = record {
  run = λ d h.
      let (d', e', h') = r.run d h in
      let (d'', e'', h'') = s.run d' h' in (d'', rw (e', ◌>>=◌) e'', h'');
}

pub Ends-map :
    {E A B : Type 0} {m : ReaderOf E A} (f : A → B) {bs : List ℕ} {a : A}
    → Ends m bs a
    → Ends (m >>= λ x. pure (f x)) bs (f a)
unfolding ◌>>=◌ pure
Ends-map f r = record { run = λ d h. let (d', e, h') = r.run d h in (d', rw (e, ◌>>=◌), h') }

drop-eq-nil : (n : ℕ) (xs : List ℕ) → drop n xs ≡ [] → length xs ≤ n
drop-eq-nil n xs h = omega (arith, length-drop {0} n xs, ap (λ (l : List ℕ). length l) h)

-- Nothing is left exactly when the cursor has reached the end.
pub is_empty-nil : (d : Decoder) → unread d ≡ [] → is_empty d ≡ true
unfolding is_empty unread
is_empty-nil d h = ground (arith, drop-eq-nil d.cursor d.input h)

pub is_empty_pos : (d : Decoder) → 0 < length (unread d) → is_empty d ≡ false
unfolding is_empty unread
is_empty_pos d h = ground (arith, length-drop d.cursor d.input)

pub Ends-if_empty_nil :
    {E A : Type 0} {m : ReaderOf E A} (k : ReaderOf E A) {a : A}
    → Ends m [] a
    → Ends (if_empty m k) [] a
unfolding if_empty
Ends-if_empty_nil k r = record {
  run = λ d h. let (d', e, h') = r.run d h in (d', rw (is_empty-nil d h) e, h');
}

pub Reads-if_empty :
    {E A : Type 0} (m : ReaderOf E A) {k : ReaderOf E A} {bs : List ℕ} {a : A}
    → 0 < length bs
    → Reads k bs a
    → Reads (if_empty m k) bs a
unfolding if_empty
Reads-if_empty m {bs} pos r = record {
  run = λ d more h.
      let room : 0 < length (unread d) = rw h (omega (arith, length-append {0} bs more)) in
      let (d', e, h') = r.run d more h in (d', rw (is_empty_pos d room) e, h');
}

pub unread-new_decoder : (bs : List ℕ) → unread (new_decoder bs) ≡ bs
unfolding unread new_decoder
unread-new_decoder bs = refl

pub decode-Ends :
    {A : Type 0} {m : Reader A} {bs : List ℕ} {a : A} → Ends m bs a → decode m bs ≡ ok a
unfolding decode ◌>>=◌ finish new_decoder unread
decode-Ends {bs} r =
    let (d, e, h) = r.run (new_decoder bs) refl in rw (e, decode, is_empty-nil d h, finish)

pub decode-Reads :
    {A : Type 0} {m : Reader A} {bs : List ℕ} {a : A} → Reads m bs a → decode m bs ≡ ok a
decode-Reads r = decode-Ends (Ends-Reads r)
