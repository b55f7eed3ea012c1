-- ===== src/Primitives/Transaction/Optional.antt =====
-- The parts of a transaction in transaction.rs that only some formats have: what stands under an
-- `if` of the encoder is read under the same `if` of the decoder, which otherwise has a fixed
-- value.
use fluxd_rust.Prelude.{ℕ, ◌≡◌, sym, Bool, true, false, List, [], ◌++◌, append-nil, if◌then◌else◌}
use fluxd_rust.Primitives.Encoding.{Encoder, ReaderOf, pure}
use fluxd_rust.Primitives.Encoding.Reads.{Reads, Reads-pure}

unfoldable pub write_if : Bool → (Encoder → Encoder) → Encoder → Encoder
write_if b w e = if b then w e else e

unfoldable pub read_if : {E A : Type 0} → Bool → A → ReaderOf E A → ReaderOf E A
unfolding pure
read_if b missing m = if b then m else pure missing

abbrev pub bytes_if : Bool → List ℕ → List ℕ
bytes_if b bs = if b then bs else []

pub buf-write_if :
    (b : Bool) (w : Encoder → Encoder) (bs : List ℕ) (e : Encoder)
    → (w e).buf ≡ e.buf ++ bs
    → (write_if b w e).buf ≡ e.buf ++ bytes_if b bs
unfolding write_if
buf-write_if true w bs e h = h
buf-write_if false w bs e h = sym (append-nil e.buf)

pub Reads-read_if :
    {E A : Type 0} (b : Bool) (missing : A) {m : ReaderOf E A} {bs : List ℕ} {a : A}
    → Reads m bs a
    → Reads (read_if b missing m) (bytes_if b bs) (if b then a else missing)
unfolding read_if
Reads-read_if true missing r = r
Reads-read_if false missing r = Reads-pure missing
