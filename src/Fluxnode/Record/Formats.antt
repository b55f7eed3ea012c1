-- ===== src/Fluxnode/Record/Formats.antt =====
-- The encoding of storage.rs against its decoder, which also reads the three older formats.
use fluxd_rust.Prelude.{
  ℕ, ◌^◌, ◌≤◌, ◌<◌, ◌≡◌, ◌⊎◌, ◌==◌, inl, inr, Bool-cases, refl, List, [], ◌∷◌, ◌++◌, length,
  length-append, Bool, true, Option, none, some, arith,
}
use fluxd_rust.Prelude.Int.{pos}
use fluxd_rust.Prelude.Result.{ok}
use fluxd_rust.Primitives.Bytes.{to_le_bytes, length-to_le_bytes, as_unsigned, IsSigned}
use fluxd_rust.Primitives.Encoding.{Encoder, pure, read_var_str, if_empty, max_compact_size}
use fluxd_rust.Primitives.Encoding.Writes.{writes, var_bytes, varint_bytes}
use fluxd_rust.Primitives.Encoding.Reads.{
  Reads, Reads-bind, Reads-map, Reads-pure, Reads-read_u8, Reads-read_u32_le, Reads-read_i64_le,
  Reads-read_fixed,
}
use fluxd_rust.Primitives.Encoding.VarInt.{Reads-read_var_str}
use fluxd_rust.Primitives.Encoding.Ends.{
  Ends, Ends-Reads, Ends-bind, Ends-bind_end, Ends-map, Ends-if_empty_nil, Reads-if_empty,
  decode-Ends,
}
use fluxd_rust.Primitives.OutPoint
use fluxd_rust.Primitives.OutPoint.{OutPoint, IsOutPoint}
use fluxd_rust.Fluxnode.Record.{
  FluxnodeRecord, encode, write_optional_key, read_optional_key, key_of_flag, read_confirmed,
  legacy_confirmed, read_tail, read_fluxnode_record, decode_fluxnode_record,
}

abbrev pub IsKey : Option (List ℕ) → Type 0
IsKey none = Unit {0}
IsKey (some key) = length key ≡ 32

-- The ranges of the fields' types, and an `ip` that is a string within the reader's size limit.
pub record IsFluxnodeRecord (is_utf8 : List ℕ → Bool) (r : FluxnodeRecord) : Type 0 where
  pub collateral_sizes : IsOutPoint r.collateral
  pub start_height_range : r.start_height < 2 ^ 32
  pub confirmed_height_range : r.confirmed_height < 2 ^ 32
  pub last_confirmed_height_range : r.last_confirmed_height < 2 ^ 32
  pub last_paid_height_range : r.last_paid_height < 2 ^ 32
  pub collateral_value_range : IsSigned (2 ^ 64) r.collateral_value
  pub operator_pubkey_size : length r.operator_pubkey ≡ 32
  pub collateral_pubkey_size : IsKey r.collateral_pubkey
  pub p2sh_script_size : IsKey r.p2sh_script
  pub delegates_size : IsKey r.delegates
  pub ip_size : length r.ip ≤ max_compact_size
  pub ip_utf8 : is_utf8 r.ip ≡ true

abbrev optional_bytes : Option (List ℕ) → List ℕ
optional_bytes none = 0 ∷ []
optional_bytes (some key) = 1 ∷ key

buf-write_optional_key :
    (key : Option (List ℕ)) (e : Encoder)
    → (write_optional_key key e).buf ≡ e.buf ++ optional_bytes key
unfolding write_optional_key
buf-write_optional_key none e = simp writes
buf-write_optional_key (some key) e = simp writes

Reads-read_optional_key :
    (key : Option (List ℕ)) → IsKey key → Reads read_optional_key (optional_bytes key) key
unfolding read_optional_key key_of_flag
Reads-read_optional_key none h = Reads-bind key_of_flag (Reads-read_u8 0) (Reads-pure none)
Reads-read_optional_key (some key) h =
    Reads-bind key_of_flag (Reads-read_u8 1) (Reads-map some (Reads-read_fixed 32 key h) refl)

optional_pos : (key : Option (List ℕ)) → 0 < length (optional_bytes key)
optional_pos none = omega arith
optional_pos (some key) = omega arith

varint_pos : (v : ℕ) → 0 < length (varint_bytes v)
unfolding varint_bytes
varint_pos v = ground arith

-- The fields of the oldest format, and what stands behind them.
abbrev pub head_bytes : FluxnodeRecord → List ℕ → List ℕ
head_bytes r rest =
    OutPoint.bytes r.collateral
    ++ ((r.tier ∷ [])
        ++ (to_le_bytes 4 r.start_height
            ++ (to_le_bytes 4 r.last_confirmed_height
                ++ (to_le_bytes 4 r.last_paid_height
                    ++ (r.operator_pubkey
                        ++ (optional_bytes r.collateral_pubkey
                            ++ (optional_bytes r.p2sh_script ++ rest)))))))

abbrev pub confirmed_bytes : FluxnodeRecord → List ℕ
confirmed_bytes r =
    to_le_bytes 4 r.confirmed_height ++ to_le_bytes 8 (as_unsigned (2 ^ 64) r.collateral_value)

encode-bytes :
    (r : FluxnodeRecord)
    → encode r ≡ head_bytes r (confirmed_bytes r ++ (var_bytes r.ip ++ optional_bytes r.delegates))
unfolding encode
encode-bytes r = simp (writes, buf-write_optional_key)

legacy_confirmed_lem :
    (start last : ℕ)
    → ((last ≡ start) × (legacy_confirmed start last ≡ 0))
      ⊎ ((¬ (last ≡ start)) × (legacy_confirmed start last ≡ last))
unfolding legacy_confirmed
legacy_confirmed_lem start last = elim (Bool-cases (last == start)) [
  | inl same ↦ inl (ground arith, rw same refl)
  | inr other ↦ inr (λ e. ground arith, rw other refl)
]

-- What the oldest format keeps of a record.
abbrev pub without_tail : FluxnodeRecord → FluxnodeRecord
without_tail r = record r {
  confirmed_height = 0;
  collateral_value = pos 0;
  ip = [];
  delegates = none;
}

module _ (is_utf8 : List ℕ → Bool) (r : FluxnodeRecord) (h : IsFluxnodeRecord is_utf8 r) where
  Ends-head :
      {rest : List ℕ} {r' : FluxnodeRecord}
      → Ends (read_tail is_utf8 (without_tail r)) rest r'
      → Ends (read_fluxnode_record is_utf8) (head_bytes r rest) r'
  unfolding read_fluxnode_record
  Ends-head t = Ends-bind _ (OutPoint.Reads-consensus_decode r.collateral h.collateral_sizes) (
      Ends-bind _ (Reads-read_u8 r.tier) (
        Ends-bind _ (Reads-read_u32_le r.start_height h.start_height_range) (
          Ends-bind _ (Reads-read_u32_le r.last_confirmed_height h.last_confirmed_height_range) (
            Ends-bind _ (Reads-read_u32_le r.last_paid_height h.last_paid_height_range) (
              Ends-bind _ (Reads-read_fixed 32 r.operator_pubkey h.operator_pubkey_size) (
                Ends-bind _ (Reads-read_optional_key r.collateral_pubkey h.collateral_pubkey_size)
                  (Ends-bind _ (Reads-read_optional_key r.p2sh_script h.p2sh_script_size) t)))))))

  -- The reader of the tail, with nothing left at the end of a format.
  Ends-no_delegates : Ends (if_empty (pure none) read_optional_key) [] none
  Ends-no_delegates = Ends-if_empty_nil read_optional_key (Ends-Reads (Reads-pure none))

  Ends-delegates :
      Ends (if_empty (pure none) read_optional_key) (optional_bytes r.delegates) r.delegates
  Ends-delegates = Ends-Reads (
      Reads-if_empty (pure none) (optional_pos r.delegates)
        (Reads-read_optional_key r.delegates h.delegates_size))

  Reads-ip : Reads (if_empty (pure []) (read_var_str is_utf8)) (var_bytes r.ip) r.ip
  Reads-ip =
      Reads-if_empty (pure [])
        (omega
          (arith, length-append {0} (varint_bytes (length r.ip)) r.ip, varint_pos (length r.ip)))
        (Reads-read_var_str is_utf8 r.ip h.ip_size h.ip_utf8)

  Reads-confirmed :
      Reads
        (read_confirmed r.start_height r.last_confirmed_height)
        (confirmed_bytes r)
        (r.confirmed_height, r.collateral_value)
  unfolding read_confirmed
  Reads-confirmed =
      Reads-if_empty _
        (omega (
          arith,
          length-append {0} (to_le_bytes 4 r.confirmed_height)
              (to_le_bytes 8 (as_unsigned (2 ^ 64) r.collateral_value)),
          length-to_le_bytes 4 r.confirmed_height,
        ))
        (Reads-bind _ (Reads-read_u32_le r.confirmed_height h.confirmed_height_range) (
          Reads-map (λ value. (r.confirmed_height, value))
            (Reads-read_i64_le r.collateral_value h.collateral_value_range) refl))

  -- A record within the ranges of its types and the size limit is read back as it was written.
  pub decode_fluxnode_record-encode : decode_fluxnode_record is_utf8 (encode r) ≡ ok r
  unfolding decode_fluxnode_record read_tail
  decode_fluxnode_record-encode = rw (encode-bytes r) (
      decode-Ends (
        Ends-head (Ends-bind _ Reads-confirmed (Ends-bind _ Reads-ip (Ends-map _ Ends-delegates)))))

  -- For a record within the ranges of its types and the size limit: the oldest format is read with
  -- no value, no ip and no delegates, and with the last confirmation's height as that of the first,
  -- but as not confirmed where that height is the start's. The next format adds the confirmation and
  -- the value, and the third the ip.
  pub decode_older_formats :
      (confirmed : ℕ) × (((r.last_confirmed_height ≡ r.start_height) × (confirmed ≡ 0))
        ⊎ ((¬ (r.last_confirmed_height ≡ r.start_height)) × (confirmed ≡ r.last_confirmed_height)))
      × (decode_fluxnode_record is_utf8 (head_bytes r [])
          ≡ ok (record r {
            confirmed_height = confirmed;
            collateral_value = pos 0;
            ip = [];
            delegates = none;
          }))
      × (decode_fluxnode_record is_utf8 (head_bytes r (confirmed_bytes r))
          ≡ ok (record r { ip = []; delegates = none }))
      × (decode_fluxnode_record is_utf8 (head_bytes r (confirmed_bytes r ++ var_bytes r.ip))
          ≡ ok (record r { delegates = none }))
  unfolding decode_fluxnode_record read_tail read_confirmed
  decode_older_formats = (
    legacy_confirmed r.start_height r.last_confirmed_height,
    legacy_confirmed_lem r.start_height r.last_confirmed_height,
    decode-Ends (
        Ends-head (
          Ends-bind_end _ (Ends-if_empty_nil _ (Ends-Reads (Reads-pure _))) (
            Ends-bind_end _ (Ends-if_empty_nil _ (Ends-Reads (Reads-pure [])))
              (Ends-map _ Ends-no_delegates)))),
    decode-Ends (
        Ends-head (
          Ends-bind_end _ (Ends-Reads Reads-confirmed) (
            Ends-bind_end _ (Ends-if_empty_nil _ (Ends-Reads (Reads-pure [])))
              (Ends-map _ Ends-no_delegates)))),
    decode-Ends (
        Ends-head (
          Ends-bind _ Reads-confirmed
            (Ends-bind_end _ (Ends-Reads Reads-ip) (Ends-map _ Ends-no_delegates)))),
  )
