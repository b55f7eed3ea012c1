-- ===== src/Primitives/FluxnodeTransaction/Decode/StartV6.antt =====
-- The payloads of version 6 of transaction.rs, whose starts carry a version of their own.
use fluxd_rust.Prelude.{
  ℕ, ◌≡◌, refl, Bool, true, false, ◌&&◌, List, [], ◌∷◌, ◌++◌, append-nil, sym, Option, none, some,
  if◌then◌else◌,
}
use fluxd_rust.Prelude.Result.{ok, ok-injective, >>=-eq-ok}
use fluxd_rust.Primitives.Encoding.{Encoder, read_bool}
use fluxd_rust.Primitives.Encoding.Writes.{writes}
use fluxd_rust.Primitives.Encoding.VarInt.{Reads-read_var_bytes}
use fluxd_rust.Primitives.Encoding.Reads.{
  Reads, Reads-bind, Reads-map, Reads-pure, Reads-read_u8, Reads-read_u32_le, Reads-read_i32_le,
}
use fluxd_rust.Primitives.OutPoint
use fluxd_rust.Primitives.FluxnodeTransaction.{
  FluxnodeDelegates, FluxnodeStartVariantV6, normal, p2sh, FluxnodeStartV6, FluxnodeTxV6, start_v6,
  confirm_v6, v6,
}
use fluxd_rust.Primitives.FluxnodeTransaction.Version.{
  is_normal, is_p2sh, has_flux_tx_delegates_feature,
}
use fluxd_rust.Primitives.FluxnodeTransaction.Encode.{
  write_variant, write_flagged_delegates, write_start_v6, encode_fluxnode_v6,
  fluxnode_start_tx_type, fluxnode_confirm_tx_type,
}
use fluxd_rust.Primitives.FluxnodeTransaction.Decode.{
  read_normal, read_p2sh, read_variant, read_delegates_if, read_flagged_delegates, read_start_v6,
  read_body_v6, decode_fluxnode_v6,
}
use fluxd_rust.Primitives.FluxnodeTransaction.Kept.{
  delegates_bytes, kept_option, IsOptionDelegates, kept_variant, variant_bytes, IsVariant,
  kept_start_v6, IsStartV6, kept_v6, IsFluxnodeTxV6,
}
use fluxd_rust.Primitives.FluxnodeTransaction.Decode.Roundtrip.{
  buf-write_sig, Reads-read_sig, buf-write_delegates, Reads-read_delegates, buf-write_confirm,
  Reads-read_confirm,
}
use fluxd_rust.Primitives.Transaction.Errors.{Reads-lift}

-- The variant is the one that the version's bits name.
abbrev pub Agrees : FluxnodeStartVariantV6 → Bool → Bool → Type 0
Agrees (normal _ _ _ _ _) is_normal is_p2sh = is_normal ≡ true
Agrees (p2sh _ _ _ _ _) is_normal is_p2sh = (is_normal ≡ false) × (is_p2sh ≡ true)

module _ (include_signatures : Bool) where
  write_variant_lem :
      (v : FluxnodeStartVariantV6) (n p : Bool) (e : Encoder) {e' : Encoder}
      → write_variant v n p include_signatures e ≡ ok e'
      → (e'.buf ≡ e.buf ++ variant_bytes include_signatures v) × Agrees v n p
  unfolding write_variant
  write_variant_lem (normal _ _ _ _ _) true p e h =
      (rw (← ok-injective h) (simp (writes, buf-write_sig)), refl)
  write_variant_lem (p2sh _ _ _ _ _) true p e h = cc
  write_variant_lem (normal _ _ _ _ _) false true e h = cc
  write_variant_lem (p2sh _ _ _ _ _) false true e h =
      (rw (← ok-injective h) (simp (writes, buf-write_sig)), (refl, refl))
  write_variant_lem (normal _ _ _ _ _) false false e h = cc
  write_variant_lem (p2sh _ _ _ _ _) false false e h = cc

  Reads-read_variant :
      (v : FluxnodeStartVariantV6) (n p : Bool)
      → IsVariant v
      → Agrees v n p
      → Reads
          (read_variant n p include_signatures)
          (variant_bytes include_signatures v)
          (kept_variant include_signatures v)
  unfolding read_variant read_normal read_p2sh
  Reads-read_variant (normal collateral first second sig_time sig) n p h a = rw a (
      Reads-lift (
        Reads-bind _ (OutPoint.Reads-consensus_decode collateral h.0) (
          Reads-bind _ (Reads-read_var_bytes first h.1) (
            Reads-bind _ (Reads-read_var_bytes second h.2) (
              Reads-bind _ (Reads-read_u32_le sig_time h.3)
                (Reads-map _ (Reads-read_sig include_signatures sig h.4) refl))))))
  Reads-read_variant (p2sh collateral first second sig_time sig) n p h a =
      rw (a.0, a.1)
        (Reads-lift (
          Reads-bind _ (OutPoint.Reads-consensus_decode collateral h.0) (
            Reads-bind _ (Reads-read_var_bytes first h.1) (
              Reads-bind _ (Reads-read_var_bytes second h.2) (
                Reads-bind _ (Reads-read_u32_le sig_time h.3)
                  (Reads-map _ (Reads-read_sig include_signatures sig h.4) refl))))))

abbrev flagged_bytes : Bool → Option FluxnodeDelegates → List ℕ
flagged_bytes true (some d) = 1 ∷ delegates_bytes d
flagged_bytes true none = 1 ∷ []
flagged_bytes false delegates = 0 ∷ []

-- The flag stands for its byte, and delegates that are in use are there.
abbrev pub Given : Bool → Option FluxnodeDelegates → Type 0
Given true none = ⊥
Given true (some d) = Unit {0}
Given false delegates = Unit {0}

write_flagged_delegates_lem :
    (using_delegates : Bool) (delegates : Option FluxnodeDelegates) (e : Encoder) {e' : Encoder}
    → write_flagged_delegates using_delegates delegates e ≡ ok e'
    → (e'.buf ≡ e.buf ++ flagged_bytes using_delegates delegates) × Given using_delegates delegates
unfolding write_flagged_delegates
write_flagged_delegates_lem true (some d) e h =
    (rw (← ok-injective h) (simp (writes, buf-write_delegates)), tt)
write_flagged_delegates_lem true none e h = cc
write_flagged_delegates_lem false delegates e h = (rw (← ok-injective h) (simp writes), tt)

Reads-read_flagged_delegates :
    (using_delegates : Bool) (delegates : Option FluxnodeDelegates)
    → IsOptionDelegates delegates
    → Given using_delegates delegates
    → Reads
        (read_flagged_delegates true)
        (flagged_bytes using_delegates delegates)
        (using_delegates, kept_option using_delegates delegates)
unfolding read_flagged_delegates read_delegates_if read_bool
Reads-read_flagged_delegates true (some d) h g =
    Reads-bind _ (Reads-map _ (Reads-read_u8 1) refl)
      (Reads-map _ (Reads-map some (Reads-read_delegates d h) refl) refl)
Reads-read_flagged_delegates true none h g = absurd g
Reads-read_flagged_delegates false delegates h g =
    Reads-bind _ (Reads-map _ (Reads-read_u8 0) refl)
      (Reads-map (λ d. (false, d)) (Reads-pure none) refl)

-- What stands behind the variant.
abbrev tail_bytes : Bool → FluxnodeStartV6 → List ℕ
tail_bytes true start = flagged_bytes start.using_delegates start.delegates
tail_bytes false start = []

write_tail_lem :
    (feature : Bool) (start : FluxnodeStartV6) (e : Encoder) {e' : Encoder}
    → (if feature then write_flagged_delegates start.using_delegates start.delegates e else ok e)
      ≡ ok e'
    → (e'.buf ≡ e.buf ++ tail_bytes feature start)
      × Given (feature && start.using_delegates) start.delegates
write_tail_lem true start e h =
    write_flagged_delegates_lem start.using_delegates start.delegates e h
write_tail_lem false start e h = (rw (← ok-injective h) (sym (append-nil e.buf)), tt)

Reads-tail :
    (feature : Bool) (start : FluxnodeStartV6)
    → IsOptionDelegates start.delegates
    → Given (feature && start.using_delegates) start.delegates
    → Reads (read_flagged_delegates feature) (tail_bytes feature start) (
      feature && start.using_delegates,
      kept_option (feature && start.using_delegates) start.delegates,
    )
Reads-tail true start h g = Reads-read_flagged_delegates start.using_delegates start.delegates h g
Reads-tail false start h g = unfold read_flagged_delegates in Reads-pure (false, none)

module _ (is_utf8 : List ℕ → Bool) (include_signatures : Bool) where
  -- A start that the encoder writes is read back without what the format leaves out.
  decode_start_v6 :
      (start : FluxnodeStartV6) (e : Encoder) {e' : Encoder}
      → IsStartV6 start
      → write_start_v6 start include_signatures e ≡ ok e'
      → (bs : List ℕ) × (e'.buf ≡ e.buf ++ (fluxnode_start_tx_type ∷ bs))
        × Reads (read_start_v6 include_signatures) bs (kept_start_v6 include_signatures start)
  unfolding write_start_v6 read_start_v6
  decode_start_v6 start e h k =
      let version = start.flux_tx_version in
      let feature = has_flux_tx_delegates_feature version in
      let (e₁, p, q) = >>=-eq-ok _ _ k in
      let (buf₁, agrees) =
        write_variant_lem include_signatures start.variant (is_normal version) (is_p2sh version) _
          p in
      let (buf₂, given) = write_tail_lem feature start e₁ q in
      (
        _,
        rw (buf₂, buf₁) (simp writes),
        Reads-bind _ (Reads-lift (Reads-read_i32_le version h.flux_tx_version_range)) (
            Reads-bind _
              (Reads-read_variant include_signatures start.variant (is_normal version)
                (is_p2sh version) h.variant_sizes agrees)
              (Reads-map _ (Reads-lift (Reads-tail feature start h.delegates_sizes given)) refl)),
      )

  pub decode_fluxnode_v6-encode :
      (body : FluxnodeTxV6) (e : Encoder) {e' : Encoder}
      → IsFluxnodeTxV6 is_utf8 body
      → encode_fluxnode_v6 (v6 body) include_signatures e ≡ ok e'
      → (bs : List ℕ) × (e'.buf ≡ e.buf ++ bs)
        × Reads (decode_fluxnode_v6 is_utf8 include_signatures) bs (kept_v6 include_signatures body)
  unfolding encode_fluxnode_v6 decode_fluxnode_v6 read_body_v6
  decode_fluxnode_v6-encode (start_v6 start) e h k =
      let (bs, buf, r) = decode_start_v6 start e h k in
      (
        fluxnode_start_tx_type ∷ bs,
        buf,
        Reads-bind _ (Reads-lift (Reads-read_u8 fluxnode_start_tx_type))
            (Reads-map start_v6 r refl),
      )
  decode_fluxnode_v6-encode (confirm_v6 confirm) e h k = (
    _,
    rw (← ok-injective k) (buf-write_confirm confirm include_signatures e),
    Reads-bind _ (Reads-lift (Reads-read_u8 fluxnode_confirm_tx_type)) (
        Reads-map confirm_v6 (Reads-lift (Reads-read_confirm is_utf8 include_signatures confirm h))
          refl),
  )
