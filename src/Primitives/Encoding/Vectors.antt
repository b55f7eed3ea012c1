-- ===== src/Primitives/Encoding/Vectors.antt =====
-- `write_vec` and `read_vec` of crates/primitives/src/transaction.rs, and the loops over a writer.
use fluxd_rust.Prelude.{
  ℕ, ◌≤◌, ◌≡◌, sym, ◌∙◌, List, [], ◌∷◌, ◌++◌, append-nil, append_assoc, length,
}
use fluxd_rust.Primitives.Encoding.{
  Encoder, ◌▷◌, write_varint, Reader, ◌>>=◌, read_varint, read_many, max_compact_size,
}
use fluxd_rust.Primitives.Encoding.Writes.{writes, varint_bytes}
use fluxd_rust.Primitives.Encoding.VarInt.{Reads-read_varint}
use fluxd_rust.Primitives.Encoding.Reads.{Reads, Reads-bind, Reads-read_many, concat_map, All}

-- `for x in xs { .. }` over a writer.
unfoldable pub write_each : {A : Type 0} → (A → Encoder → Encoder) → List A → Encoder → Encoder
write_each w [] e = e
write_each w (x ∷ xs) e = write_each w xs (w x e)

unfoldable pub write_vec : {A : Type 0} → (A → Encoder → Encoder) → List A → Encoder → Encoder
unfolding write_each
write_vec w values e = e ▷ write_varint (length values) ▷ write_each w values

-- A compact size is at most 2 ^ 25, so the conversion to `usize` succeeds.
unfoldable pub read_vec : {A : Type 0} → Reader A → Reader (List A)
unfolding ◌>>=◌ read_varint read_many
read_vec m = do count ← read_varint; read_many count m

abbrev pub vec_bytes : {A : Type 0} → (A → List ℕ) → List A → List ℕ
vec_bytes f xs = varint_bytes (length xs) ++ concat_map f xs

module _ {A : Type 0} (w : A → Encoder → Encoder) (f : A → List ℕ) where
  pub buf-write_each :
      ((a : A) (e : Encoder) → (w a e).buf ≡ e.buf ++ f a)
      → (xs : List A) (e : Encoder) → (write_each w xs e).buf ≡ e.buf ++ concat_map f xs
  unfolding write_each
  buf-write_each each [] e = sym (append-nil e.buf)
  buf-write_each each (x ∷ xs) e =
      buf-write_each each xs (w x e) ∙ rw (each x e) (append_assoc e.buf (f x) (concat_map f xs))

  pub buf-write_vec :
      ((a : A) (e : Encoder) → (w a e).buf ≡ e.buf ++ f a)
      → (xs : List A) (e : Encoder) → (write_vec w xs e).buf ≡ e.buf ++ vec_bytes f xs
  unfolding write_vec
  buf-write_vec each xs e = buf-write_each each xs (write_varint (length xs) e) ∙ simp writes

pub Reads-read_vec :
    {A : Type 0} {m : Reader A} (f : A → List ℕ) (P : A → Type 0)
    → ((a : A) → P a → Reads m (f a) a)
    → (xs : List A) → length xs ≤ max_compact_size
    → All P xs
    → Reads (read_vec m) (vec_bytes f xs) xs
unfolding read_vec
Reads-read_vec {m} f P each xs size h =
    Reads-bind (λ count. read_many count m) (Reads-read_varint (length xs) size)
      (Reads-read_many f P each xs h)
