-- ===== src/Fluxnode/Record.antt =====
-- crates/fluxnode/src/storage.rs: a fluxnode's record and its encoding, which grew at its end.
pub mod Formats
use fluxd_rust.Prelude.{
  ℕ, ◌+◌, ◌-◌, ◌^◌, ◌≤◌, ◌<◌, ◌≡◌, refl, sym, ap, ◌∙◌, List, [], ◌∷◌, ◌++◌, append-nil,
  append_assoc, length, Bool, true, false, not, Option, none, some, if◌then◌else◌, ◌==◌, arith,
}
use fluxd_rust.Prelude.Int.{ℤ, pos}
use fluxd_rust.Prelude.Result.{Result, ok}
use fluxd_rust.Primitives.Bytes.{to_le_bytes, as_unsigned, IsSigned}
use fluxd_rust.Primitives.Encoding.{
  Encoder, new_encoder, into_inner, ◌▷◌, write_u8, write_u32_le, write_bytes, write_i64_le,
  write_var_str, Reader, ◌>>=◌, pure, read_u8, read_u32_le, read_fixed, read_i64_le, read_var_str,
  if_empty, decode, DecodeError, max_compact_size,
}
use fluxd_rust.Primitives.OutPoint
use fluxd_rust.Primitives.OutPoint.{OutPoint, IsOutPoint}

-- A `KeyId` is the 32 bytes of a hash.
pub record FluxnodeRecord : Type 0 where
  pub collateral : OutPoint
  pub tier : ℕ
  pub start_height : ℕ
  pub confirmed_height : ℕ
  pub last_confirmed_height : ℕ
  pub last_paid_height : ℕ
  pub collateral_value : ℤ
  pub operator_pubkey : List ℕ
  pub collateral_pubkey : Option (List ℕ)
  pub p2sh_script : Option (List ℕ)
  pub delegates : Option (List ℕ)
  pub ip : List ℕ

unfoldable pub write_optional_key : Option (List ℕ) → Encoder → Encoder
write_optional_key none e = e ▷ write_u8 0
write_optional_key (some key) e = e ▷ write_u8 1 ▷ write_bytes key

unfoldable pub encode : FluxnodeRecord → List ℕ
unfolding OutPoint.consensus_encode write_optional_key
encode r = into_inner (
    new_encoder
    ▷ OutPoint.consensus_encode r.collateral
    ▷ write_u8 r.tier
    ▷ write_u32_le r.start_height
    ▷ write_u32_le r.last_confirmed_height
    ▷ write_u32_le r.last_paid_height
    ▷ write_bytes r.operator_pubkey
    ▷ write_optional_key r.collateral_pubkey
    ▷ write_optional_key r.p2sh_script
    ▷ write_u32_le r.confirmed_height
    ▷ write_i64_le r.collateral_value
    ▷ write_var_str r.ip
    ▷ write_optional_key r.delegates)

key_of_flag : ℕ → Reader (Option (List ℕ))
unfolding ◌>>=◌ pure read_fixed
key_of_flag flag = if flag == 0 then pure none else (read_fixed 32 >>= λ key. pure (some key))

unfoldable pub read_optional_key : Reader (Option (List ℕ))
unfolding ◌>>=◌ read_u8 key_of_flag
read_optional_key = do flag ← read_u8; key_of_flag flag

-- A record without these two fields counts as confirmed when it was confirmed after its start.
pub legacy_confirmed : ℕ → ℕ → ℕ
legacy_confirmed start_height last_confirmed_height =
    if last_confirmed_height == start_height then 0 else last_confirmed_height

read_confirmed : ℕ → ℕ → Reader (ℕ × ℤ)
unfolding ◌>>=◌ pure read_u32_le read_i64_le if_empty legacy_confirmed
read_confirmed start_height last_confirmed_height =
    if_empty (pure (legacy_confirmed start_height last_confirmed_height, pos 0)) (do
      confirmed_height ← read_u32_le
      collateral_value ← read_i64_le
      pure (confirmed_height, collateral_value))

-- The fields that later versions of the format added, each left out by the older ones.
read_tail : (List ℕ → Bool) → FluxnodeRecord → Reader FluxnodeRecord
unfolding ◌>>=◌ pure read_optional_key read_confirmed if_empty read_var_str
read_tail is_utf8 r = do
  confirmed ← read_confirmed r.start_height r.last_confirmed_height
  ip ← if_empty (pure []) (read_var_str is_utf8)
  delegates ← if_empty (pure none) read_optional_key
  pure (record r {
    confirmed_height = confirmed.0;
    collateral_value = confirmed.1;
    ip = ip;
    delegates = delegates;
  })

unfoldable pub read_fluxnode_record : (List ℕ → Bool) → Reader FluxnodeRecord
unfolding ◌>>=◌ OutPoint.consensus_decode read_u8 read_u32_le read_fixed read_optional_key read_tail
read_fluxnode_record is_utf8 = do
  collateral ← OutPoint.consensus_decode
  tier ← read_u8
  start_height ← read_u32_le
  last_confirmed_height ← read_u32_le
  last_paid_height ← read_u32_le
  operator_pubkey ← read_fixed 32
  collateral_pubkey ← read_optional_key
  p2sh_script ← read_optional_key
  read_tail is_utf8 (record {
    collateral = collateral;
    tier = tier;
    start_height = start_height;
    confirmed_height = 0;
    last_confirmed_height = last_confirmed_height;
    last_paid_height = last_paid_height;
    collateral_value = pos 0;
    operator_pubkey = operator_pubkey;
    collateral_pubkey = collateral_pubkey;
    p2sh_script = p2sh_script;
    delegates = none;
    ip = [];
  })

-- The test that nothing is left is that of `decode`.
unfoldable pub decode_fluxnode_record : (List ℕ → Bool) → List ℕ → Result DecodeError FluxnodeRecord
unfolding decode read_fluxnode_record
decode_fluxnode_record is_utf8 bytes = decode (read_fluxnode_record is_utf8) bytes
