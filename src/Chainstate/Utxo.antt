-- ===== src/Chainstate/Utxo.antt =====
-- crates/chainstate/src/utxo.rs: unspent outputs, their keys and their encoding.
use fluxd_rust.Prelude.{
  ℕ, ◌^◌, ◌≤◌, ◌<◌, ◌≡◌, refl, List, [], ◌∷◌, ◌++◌, Bool, true, false, not, length, Option, none,
  some, if◌then◌else◌, ◌==◌,
}
use fluxd_rust.Prelude.Int.{ℤ}
use fluxd_rust.Prelude.Result.{Result, ok}
use fluxd_rust.Primitives.Bytes.{to_le_bytes, as_unsigned, IsSigned}
use fluxd_rust.Primitives.Encoding.{
  new_encoder, into_inner, ◌▷◌, write_i64_le, write_var_bytes, write_u32_le, write_u8, Reader,
  ◌>>=◌, pure, read_i64_le, read_var_bytes, read_u32_le, read_u8, decode, DecodeError,
  max_compact_size,
}
use fluxd_rust.Primitives.Encoding.Writes.{writes, var_bytes}
use fluxd_rust.Primitives.Encoding.Reads.{
  Reads, Reads-bind, Reads-map, Reads-read_i64_le, Reads-read_u32_le, Reads-read_u8,
}
use fluxd_rust.Primitives.Encoding.VarInt.{Reads-read_var_bytes}
use fluxd_rust.Primitives.Encoding.Ends.{decode-Reads}
use fluxd_rust.Primitives.OutPoint.{OutPoint}

pub record UtxoEntry : Type 0 where
  pub value : ℤ
  pub script_pubkey : List ℕ
  pub height : ℕ
  pub is_coinbase : Bool

-- The ranges of the fields' types, and a script that the reader's size limit admits.
pub record IsUtxoEntry (u : UtxoEntry) : Type 0 where
  pub value_range : IsSigned (2 ^ 64) u.value
  pub script_size : length u.script_pubkey ≤ max_compact_size
  pub height_range : u.height < 2 ^ 32

unfoldable pub encode : UtxoEntry → List ℕ
encode u = into_inner (
    new_encoder
    ▷ write_i64_le u.value
    ▷ write_var_bytes u.script_pubkey
    ▷ write_u32_le u.height
    ▷ write_u8 (if u.is_coinbase then 1 else 0))

-- The reader's test that nothing is left is that of `decode`.
unfoldable pub read_utxo_entry : Reader UtxoEntry
unfolding ◌>>=◌ pure read_i64_le read_var_bytes read_u32_le read_u8
read_utxo_entry = do
  value ← read_i64_le
  script_pubkey ← read_var_bytes
  height ← read_u32_le
  flag ← read_u8
  pure (record {
    value = value;
    script_pubkey = script_pubkey;
    height = height;
    is_coinbase = not (flag == 0);
  })

unfoldable pub decode_utxo_entry : List ℕ → Result DecodeError UtxoEntry
unfolding decode read_utxo_entry
decode_utxo_entry bytes = decode read_utxo_entry bytes

abbrev flag_byte : Bool → ℕ
flag_byte b = if b then 1 else 0

abbrev pub utxo_bytes : UtxoEntry → List ℕ
utxo_bytes u =
    to_le_bytes 8 (as_unsigned (2 ^ 64) u.value)
    ++ (var_bytes u.script_pubkey ++ (to_le_bytes 4 u.height ++ (flag_byte u.is_coinbase ∷ [])))

pub encode-utxo_bytes : (u : UtxoEntry) → encode u ≡ utxo_bytes u
unfolding encode
encode-utxo_bytes u = simp writes

not-flag_byte : (b : Bool) → not (flag_byte b == 0) ≡ b
not-flag_byte true = refl
not-flag_byte false = refl

pub Reads-read_utxo_entry : (u : UtxoEntry) → IsUtxoEntry u → Reads read_utxo_entry (utxo_bytes u) u
unfolding read_utxo_entry
Reads-read_utxo_entry u h = Reads-bind _ (Reads-read_i64_le u.value h.value_range) (
    Reads-bind _ (Reads-read_var_bytes u.script_pubkey h.script_size) (
      Reads-bind _ (Reads-read_u32_le u.height h.height_range) (
        Reads-map _ (Reads-read_u8 (flag_byte u.is_coinbase))
          (λ i. record u { is_coinbase = not-flag_byte u.is_coinbase i }))))

-- An entry within the ranges of its types and the size limit is read back as `encode` wrote it.
pub decode_utxo_entry-encode : (u : UtxoEntry) → IsUtxoEntry u → decode_utxo_entry (encode u) ≡ ok u
unfolding decode_utxo_entry
decode_utxo_entry-encode u h = rw (encode-utxo_bytes u) (decode-Reads (Reads-read_utxo_entry u h))

-- `OutPointKey`: 36 bytes, the hash and the index.
unfoldable pub outpoint_key : OutPoint → List ℕ
outpoint_key o = o.hash ++ to_le_bytes 4 o.index

unfoldable pub key_from_slice : List ℕ → Option (List ℕ)
key_from_slice bytes = if length bytes == 36 then some bytes else none
