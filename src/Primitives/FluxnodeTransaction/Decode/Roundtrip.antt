-- ===== src/Primitives/FluxnodeTransaction/Decode/Roundtrip.antt =====
-- The payloads of transaction.rs: the parts that are the same in both versions, and version 5.
use fluxd_rust.Prelude.{
  ℕ, ◌≡◌, refl, sym, Bool, true, false, List, [], ◌∷◌, ◌++◌, inl, inr, Bool-cases, if◌then◌else◌,
  append-nil,
}
use fluxd_rust.Prelude.Result.{ok}
use fluxd_rust.Primitives.Encoding.{Encoder, write_var_bytes}
use fluxd_rust.Primitives.Encoding.Writes.{writes, var_bytes, buf-write_var_bytes}
use fluxd_rust.Primitives.Encoding.Vectors.{vec_bytes, buf-write_vec, Reads-read_vec}
use fluxd_rust.Primitives.Encoding.VarInt.{Reads-read_var_bytes, Reads-read_var_str}
use fluxd_rust.Primitives.Encoding.Reads.{
  Reads, Reads-bind, Reads-map, Reads-pure, Reads-read_u8, Reads-read_u32_le,
}
use fluxd_rust.Primitives.OutPoint
use fluxd_rust.Primitives.FluxnodeTransaction.{
  FluxnodeDelegates, FluxnodeConfirmTx, FluxnodeStartV5, FluxnodeTxV5, start_v5, confirm_v5, v5,
  write_delegates, read_delegates, read_keys,
}
use fluxd_rust.Primitives.FluxnodeTransaction.Encode.{
  write_sig, write_start_v5, write_confirm, encode_fluxnode_v5, fluxnode_start_tx_type,
  fluxnode_confirm_tx_type,
}
use fluxd_rust.Primitives.FluxnodeTransaction.Decode.{
  read_sig, read_start_v5, read_confirm, read_body_v5, decode_fluxnode_v5,
}
use fluxd_rust.Primitives.FluxnodeTransaction.Kept.{
  IsSized, kept_sig, sig_bytes, has_keys, kept_delegates, IsDelegates, delegates_bytes,
  kept_start_v5, IsStartV5, start_v5_bytes, kept_confirm, IsConfirm, confirm_bytes, kept_v5,
  IsFluxnodeTxV5,
}
use fluxd_rust.Primitives.Transaction.Errors.{Reads-lift}

pub buf-write_sig :
    (include_signatures : Bool) (sig : List ℕ) (e : Encoder)
    → (write_sig include_signatures sig e).buf ≡ e.buf ++ sig_bytes include_signatures sig
unfolding write_sig
buf-write_sig true sig e = buf-write_var_bytes e sig
buf-write_sig false sig e = sym (append-nil e.buf)

pub Reads-read_sig :
    (include_signatures : Bool) (sig : List ℕ)
    → IsSized sig
    → Reads
        (read_sig include_signatures)
        (sig_bytes include_signatures sig)
        (kept_sig include_signatures sig)
unfolding read_sig
Reads-read_sig true sig h = Reads-read_var_bytes sig h
Reads-read_sig false sig h = Reads-pure []

pub buf-write_delegates :
    (d : FluxnodeDelegates) (e : Encoder) → (write_delegates d e).buf ≡ e.buf ++ delegates_bytes d
unfolding write_delegates
buf-write_delegates d e = elim (Bool-cases (has_keys d)) [
  | inl keys ↦
      rw keys
        (simp (writes, buf-write_vec write_var_bytes var_bytes (λ x e. buf-write_var_bytes e x)))
  | inr bare ↦ rw bare (simp writes)
]

Reads-read_keys :
    (d : FluxnodeDelegates)
    → IsDelegates d
    → Reads
        (read_keys d.version d.kind)
        (if has_keys d then vec_bytes var_bytes d.delegate_starting_keys else [])
        (if has_keys d then d.delegate_starting_keys else [])
unfolding read_keys
Reads-read_keys d h = elim (Bool-cases (has_keys d)) [
  | inl keys ↦ rw keys (
      Reads-read_vec var_bytes IsSized Reads-read_var_bytes d.delegate_starting_keys h.keys_count
        h.keys_sizes)
  | inr bare ↦ rw bare (Reads-pure [])
]

pub Reads-read_delegates :
    (d : FluxnodeDelegates)
    → IsDelegates d
    → Reads read_delegates (delegates_bytes d) (kept_delegates d)
unfolding read_delegates
Reads-read_delegates d h =
    Reads-bind _ (Reads-read_u8 d.version)
      (Reads-bind _ (Reads-read_u8 d.kind) (Reads-map _ (Reads-read_keys d h) refl))

buf-write_start_v5 :
    (start : FluxnodeStartV5) (include_signatures : Bool) (e : Encoder)
    → (write_start_v5 start include_signatures e).buf
      ≡ e.buf ++ (fluxnode_start_tx_type ∷ start_v5_bytes include_signatures start)
unfolding write_start_v5
buf-write_start_v5 start include_signatures e = simp (writes, buf-write_sig)

pub buf-write_confirm :
    (confirm : FluxnodeConfirmTx) (include_signatures : Bool) (e : Encoder)
    → (write_confirm confirm include_signatures e).buf
      ≡ e.buf ++ (fluxnode_confirm_tx_type ∷ confirm_bytes include_signatures confirm)
unfolding write_confirm
buf-write_confirm confirm include_signatures e = simp (writes, buf-write_sig)

Reads-read_start_v5 :
    (start : FluxnodeStartV5) (include_signatures : Bool)
    → IsStartV5 start
    → Reads
        (read_start_v5 include_signatures)
        (start_v5_bytes include_signatures start)
        (kept_start_v5 include_signatures start)
unfolding read_start_v5
Reads-read_start_v5 start include_signatures h =
    Reads-bind _ (OutPoint.Reads-consensus_decode start.collateral h.collateral_sizes) (
      Reads-bind _ (Reads-read_var_bytes start.collateral_pubkey h.collateral_pubkey_size) (
        Reads-bind _ (Reads-read_var_bytes start.pubkey h.pubkey_size) (
          Reads-bind _ (Reads-read_u32_le start.sig_time h.sig_time_range)
            (Reads-map _ (Reads-read_sig include_signatures start.sig h.sig_size) refl))))

module _ (is_utf8 : List ℕ → Bool) (include_signatures : Bool) where
  pub Reads-read_confirm :
      (confirm : FluxnodeConfirmTx)
      → IsConfirm is_utf8 confirm
      → Reads
          (read_confirm is_utf8 include_signatures)
          (confirm_bytes include_signatures confirm)
          (kept_confirm include_signatures confirm)
  unfolding read_confirm
  Reads-read_confirm c h =
      Reads-bind _ (OutPoint.Reads-consensus_decode c.collateral h.collateral_sizes) (
        Reads-bind _ (Reads-read_u32_le c.sig_time h.sig_time_range) (
          Reads-bind _ (Reads-read_u8 c.benchmark_tier) (
            Reads-bind _ (Reads-read_u32_le c.benchmark_sig_time h.benchmark_sig_time_range) (
              Reads-bind _ (Reads-read_u8 c.update_type) (
                Reads-bind _ (Reads-read_var_str is_utf8 c.ip h.ip_size h.ip_utf8) (
                  Reads-bind _ (Reads-read_sig include_signatures c.sig h.sig_size) (
                    Reads-map _
                      (Reads-read_sig include_signatures c.benchmark_sig h.benchmark_sig_size)
                      refl)))))))

  -- A payload of version 5 that the encoder writes is read back without what is left out.
  pub decode_fluxnode_v5-encode :
      (body : FluxnodeTxV5) (e : Encoder) {e' : Encoder}
      → IsFluxnodeTxV5 is_utf8 body
      → encode_fluxnode_v5 (v5 body) include_signatures e ≡ ok e'
      → (bs : List ℕ) × (e'.buf ≡ e.buf ++ bs)
        × Reads (decode_fluxnode_v5 is_utf8 include_signatures) bs (kept_v5 include_signatures body)
  unfolding encode_fluxnode_v5 decode_fluxnode_v5 read_body_v5
  decode_fluxnode_v5-encode (start_v5 start) e {e'} h k =
      let same : write_start_v5 start include_signatures e ≡ e' = cc in
      (
        _,
        rw (← same) (buf-write_start_v5 start include_signatures e),
        Reads-bind _ (Reads-lift (Reads-read_u8 fluxnode_start_tx_type))
            (Reads-map start_v5 (Reads-lift (Reads-read_start_v5 start include_signatures h)) refl),
      )
  decode_fluxnode_v5-encode (confirm_v5 confirm) e {e'} h k =
      let same : write_confirm confirm include_signatures e ≡ e' = cc in
      (
        _,
        rw (← same) (buf-write_confirm confirm include_signatures e),
        Reads-bind _ (Reads-lift (Reads-read_u8 fluxnode_confirm_tx_type))
            (Reads-map confirm_v5 (Reads-lift (Reads-read_confirm confirm h)) refl),
      )
