-- ===== src/Primitives/OutPoint.antt =====
-- crates/primitives/src/outpoint.rs: the reference to a transaction's output.
pub mod Same
use fluxd_rust.Prelude.{ℕ, ◌-◌, ◌^◌, ◌<◌, ◌≡◌, refl, List, ◌++◌, length, replicate}
use fluxd_rust.Primitives.Bytes.{to_le_bytes}
use fluxd_rust.Primitives.Encoding.{
  Encoder, ◌▷◌, write_hash_le, write_u32_le, Reader, ◌>>=◌, pure, read_hash_le, read_u32_le,
}
use fluxd_rust.Primitives.Encoding.Writes.{writes}
use fluxd_rust.Primitives.Encoding.Reads.{
  Reads, Reads-bind, Reads-map, Reads-read_hash_le, Reads-read_u32_le,
}

pub record OutPoint : Type 0 where
  pub hash : List ℕ
  pub index : ℕ

-- The sizes that the types `[u8; 32]` and `u32` give.
pub record IsOutPoint (o : OutPoint) : Type 0 where
  pub hash_size : length o.hash ≡ 32
  pub index_range : o.index < 2 ^ 32

unfoldable pub null : OutPoint
null = record { hash = replicate 32 0; index = 2 ^ 32 - 1 }

unfoldable pub consensus_encode : OutPoint → Encoder → Encoder
consensus_encode o e = e ▷ write_hash_le o.hash ▷ write_u32_le o.index

unfoldable pub consensus_decode : Reader OutPoint
unfolding ◌>>=◌ pure read_hash_le read_u32_le
consensus_decode = do
  hash ← read_hash_le
  index ← read_u32_le
  pure (record { hash = hash; index = index })

abbrev pub bytes : OutPoint → List ℕ
bytes o = o.hash ++ to_le_bytes 4 o.index

pub buf-consensus_encode :
    (o : OutPoint) (e : Encoder) → (consensus_encode o e).buf ≡ e.buf ++ bytes o
unfolding consensus_encode
buf-consensus_encode o e = simp writes

pub Reads-consensus_decode : (o : OutPoint) → IsOutPoint o → Reads consensus_decode (bytes o) o
unfolding consensus_decode
Reads-consensus_decode o h =
    Reads-bind (λ hash. read_u32_le >>= λ index. pure (record { hash = hash; index = index }))
      (Reads-read_hash_le o.hash h.hash_size)
      (Reads-map (λ index. record { hash = o.hash; index = index })
        (Reads-read_u32_le o.index h.index_range) refl)
