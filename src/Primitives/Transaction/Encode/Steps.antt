-- ===== src/Primitives/Transaction/Encode/Steps.antt =====
-- transaction.rs: what each step of the encoder tests, as it ends without an error.
use Prim.Native.String.{String}
use fluxd_rust.Prelude.{
  ◌≡◌, ◌⊎◌, ◌↔◌, ◌^◌, ◌/◌, ◌%◌, ◌==◌, refl, List, [], ◌∷◌, Bool, true, false, not, ◌&&◌, ◌||◌,
  Option, none, some, if◌then◌else◌, inl, inr, arith,
}
use fluxd_rust.Prelude.Int.{pos, leb_ℤ}
use fluxd_rust.Prelude.Result.{Result, ok, err, ◌>>=◌, >>=-eq-ok, fail_if, fail_if-eq-ok}
use fluxd_rust.Primitives.Bytes.{as_unsigned}
use fluxd_rust.Primitives.Encoding.{Encoder}
use fluxd_rust.Primitives.FluxnodeTransaction.{
  FluxnodeDelegates, FluxnodeStartVariantV6, normal, p2sh, FluxnodeTxV5, start_v5, confirm_v5,
  FluxnodeTxV6, start_v6, confirm_v6, FluxnodeTx, v5, v6,
}
use fluxd_rust.Primitives.FluxnodeTransaction.Version.{
  is_normal, is_p2sh, has_flux_tx_delegates_feature,
}
use fluxd_rust.Primitives.FluxnodeTransaction.Encode.{
  write_variant, write_flagged_delegates, write_start_v6, encode_fluxnode_v5, encode_fluxnode_v6,
}
use fluxd_rust.Primitives.FluxnodeTransaction.Decode.StartV6.{Agrees, Given}
use fluxd_rust.Primitives.Transaction.{Transaction}
use fluxd_rust.Primitives.Transaction.Errors.{TransactionEncodeError, invalid_format}
use fluxd_rust.Primitives.Transaction.JoinSplits.{
  SproutProof, groth, phgr, JoinSplit, is_groth, write_proof, write_join_split,
}
use fluxd_rust.Primitives.Transaction.Encode.{
  encode_present, write_each_split, write_join_splits, write_inputs, encode_formats,
}
use fluxd_rust.Primitives.Transaction.Encode.Encodable.{
  Succeeds, Succeeds-bind, IsEncodableV6, AllKind, Agrees-MatchesBits, Given-HasDelegates,
}

pub bind-Succeeds :
    {A B : Type 0} (r : Result TransactionEncodeError A)
    (next : A → Result TransactionEncodeError B)
    → Succeeds (r >>= next)
    → (a : A) × (r ≡ ok a) × Succeeds (next a)
bind-Succeeds r next (b, h) = let (a, e, k) = >>=-eq-ok r next h in (a, e, (b, k))

write_proof-Succeeds :
    (proof : SproutProof) (use_groth : Bool) (e : Encoder)
    → Succeeds (write_proof proof use_groth e) ↔ (is_groth proof ≡ use_groth)
unfolding write_proof
write_proof-Succeeds (groth proof) true e = (λ h. refl, λ h. (_, refl))
write_proof-Succeeds (groth proof) false e = (λ h. let k = h.1 in cc, λ h. cc)
write_proof-Succeeds (phgr proof) true e = (λ h. let k = h.1 in cc, λ h. cc)
write_proof-Succeeds (phgr proof) false e = (λ h. refl, λ h. (_, refl))

write_each_split-Succeeds :
    (use_groth : Bool) (js : List JoinSplit) (e : Encoder)
    → Succeeds (write_each_split use_groth js e) ↔ AllKind use_groth js
unfolding write_each_split write_join_split
write_each_split-Succeeds use_groth [] e = (λ h. tt, λ h. (e, refl))
write_each_split-Succeeds use_groth (j ∷ js) e = (
  λ h.
      let (e₁, first, rest) = bind-Succeeds (write_join_split use_groth j e) _ h in
      let (e₂, proof, _) = bind-Succeeds (write_proof j.proof use_groth _) _ (e₁, first) in
      (
        (write_proof-Succeeds j.proof use_groth _).0 (e₂, proof),
        (write_each_split-Succeeds use_groth js e₁).0 rest,
      ),
  λ h.
      Succeeds-bind (write_each_split use_groth js)
        (Succeeds-bind _ ((write_proof-Succeeds j.proof use_groth _).1 h.0) λ e'. (_, refl))
        λ e'. (write_each_split-Succeeds use_groth js e').1 h.1,
)

write_variant-Succeeds :
    (v : FluxnodeStartVariantV6) (n p include_signatures : Bool) (e : Encoder)
    → Succeeds (write_variant v n p include_signatures e) ↔ Agrees v n p
unfolding write_variant
write_variant-Succeeds (normal _ _ _ _ _) true p s e = (λ h. refl, λ h. (_, refl))
write_variant-Succeeds (normal _ _ _ _ _) false true s e = (λ h. let k = h.1 in cc, λ h. cc)
write_variant-Succeeds (normal _ _ _ _ _) false false s e = (λ h. let k = h.1 in cc, λ h. cc)
write_variant-Succeeds (p2sh _ _ _ _ _) true p s e =
    (λ h. let k = h.1 in cc, λ h. let k = h.0 in cc)
write_variant-Succeeds (p2sh _ _ _ _ _) false true s e = (λ h. (refl, refl), λ h. (_, refl))
write_variant-Succeeds (p2sh _ _ _ _ _) false false s e =
    (λ h. let k = h.1 in cc, λ h. let k = h.1 in cc)

write_flagged-Succeeds :
    (feature used : Bool) (delegates : Option FluxnodeDelegates) (e : Encoder)
    → Succeeds (if feature then write_flagged_delegates used delegates e else ok e)
      ↔ Given (feature && used) delegates
unfolding write_flagged_delegates
write_flagged-Succeeds false used delegates e = (λ h. tt, λ h. (e, refl))
write_flagged-Succeeds true false delegates e = (λ h. tt, λ h. (_, refl))
write_flagged-Succeeds true true none e = (λ h. let k = h.1 in cc, λ h. absurd h)
write_flagged-Succeeds true true (some d) e = (λ h. tt, λ h. (_, refl))

encode_v6-Succeeds :
    (payload : FluxnodeTxV6) (include_signatures : Bool) (e : Encoder)
    → Succeeds (encode_fluxnode_v6 (v6 payload) include_signatures e) ↔ IsEncodableV6 payload
unfolding encode_fluxnode_v6 write_start_v6 has_flux_tx_delegates_feature
encode_v6-Succeeds (confirm_v6 confirm) s e = (λ h. tt, λ h. (_, refl))
encode_v6-Succeeds (start_v6 start) s e =
    let version = start.flux_tx_version in
    let bit = as_unsigned (2 ^ 32) version / 2 ^ 8 % 2 in
    let n = is_normal version in
    let p = is_p2sh version in
    let given = Given-HasDelegates bit start.using_delegates start.delegates (omega arith) in
    (
      λ h.
          let (e₁, variant, tail) = bind-Succeeds (write_variant start.variant n p s _) _ h in
          (
            (Agrees-MatchesBits start.variant version).0
                ((write_variant-Succeeds start.variant n p s _).0 (e₁, variant)),
            given.0 (
                (write_flagged-Succeeds (bit == 1) start.using_delegates start.delegates e₁).0
                  tail),
          ),
      λ h.
          Succeeds-bind _
            ((write_variant-Succeeds start.variant n p s _).1
              ((Agrees-MatchesBits start.variant version).1 h.0))
            λ e'.
              (write_flagged-Succeeds (bit == 1) start.using_delegates start.delegates e').1
                (given.1 h.1),
    )

Succeeds-encode_v5 :
    (payload : FluxnodeTxV5) (include_signatures : Bool) (e : Encoder)
    → Succeeds (encode_fluxnode_v5 (v5 payload) include_signatures e)
unfolding encode_fluxnode_v5
Succeeds-encode_v5 (start_v5 start) include_signatures e = (_, refl)
Succeeds-encode_v5 (confirm_v5 confirm) include_signatures e = (_, refl)

pub present_v5 :
    (f : Bool) (o : Option FluxnodeTx) (missing : String) (include_signatures : Bool) (e : Encoder)
    → Succeeds (
        if f
        then err (invalid_format "fluxnode tx must not be overwintered")
        else encode_present encode_fluxnode_v5 missing include_signatures o e)
      ↔ ((f ≡ false) × ((payload : FluxnodeTxV5) × (o ≡ some (v5 payload))))
unfolding encode_present
present_v5 true o missing s e = (λ h. let k = h.1 in cc, λ h. let k = h.0 in cc)
present_v5 false none missing s e = (λ h. let k = h.1 in cc, λ h. let k = h.1.1 in cc)
present_v5 false (some (v6 body)) missing s e =
    unfold encode_fluxnode_v5 in (λ h. let k = h.1 in cc, λ h. let k = h.1.1 in cc)
present_v5 false (some (v5 body)) missing s e =
    (λ h. (refl, (body, refl)), λ h. Succeeds-encode_v5 body s e)

pub present_v6 :
    (f : Bool) (o : Option FluxnodeTx) (missing : String) (include_signatures : Bool) (e : Encoder)
    → Succeeds (
        if f
        then err (invalid_format "fluxnode tx must not be overwintered")
        else encode_present encode_fluxnode_v6 missing include_signatures o e)
      ↔ ((f ≡ false) × ((payload : FluxnodeTxV6) × (o ≡ some (v6 payload)) × IsEncodableV6 payload))
unfolding encode_present
present_v6 true o missing s e = (λ h. let k = h.1 in cc, λ h. let k = h.0 in cc)
present_v6 false none missing s e = (λ h. let k = h.1 in cc, λ h. let k = h.1.1 in cc)
present_v6 false (some (v5 body)) missing s e =
    unfold encode_fluxnode_v6 in (λ h. let k = h.1 in cc, λ h. let k = h.1.1 in cc)
present_v6 false (some (v6 body)) missing s e = (
  λ h. (refl, (body, refl, (encode_v6-Succeeds body s e).0 h)),
  λ h.
      let (payload, same, v) = h.1 in rw (same_payload same) ((encode_v6-Succeeds payload s e).1 v),
)
  where
    same_payload :
        {a b : FluxnodeTxV6} → ◌≡◌ {A = Option FluxnodeTx} (some (v6 a)) (some (v6 b)) → a ≡ b
    same_payload h = cc

module _ (tx : Transaction) where
  abbrev pub use_groth : Bool
  use_groth = tx.f_overwintered && leb_ℤ (pos 4) tx.version

  write_splits-Succeeds :
      (b : Bool) (e : Encoder)
      → Succeeds (if b then write_join_splits tx e else ok e)
        ↔ ((b ≡ false) ⊎ AllKind use_groth tx.join_splits)
  unfolding write_join_splits
  write_splits-Succeeds false e = (λ h. inl refl, λ h. (e, refl))
  write_splits-Succeeds true e = (
    λ h.
        let (e₁, each, _) = bind-Succeeds (write_each_split use_groth tx.join_splits _) _ h in
        inr ((write_each_split-Succeeds use_groth tx.join_splits _).0 (e₁, each)),
    given,
  )
    where
      given : (true ≡ false) ⊎ AllKind use_groth tx.join_splits → Succeeds (write_join_splits tx e)
      given (inl h) = cc
      given (inr h) =
          Succeeds-bind _ ((write_each_split-Succeeds use_groth tx.join_splits _).1 h)
            λ e'. (_, refl)

  pub encode_formats-Succeeds :
      (v3 v4 : Bool) (e : Encoder)
      → Succeeds (encode_formats tx v3 v4 e) ↔ (
          ((tx.f_overwintered && not (v3 || v4)) ≡ false)
          × ((leb_ℤ (pos 2) tx.version ≡ false) ⊎ AllKind use_groth tx.join_splits))
  unfolding encode_formats
  encode_formats-Succeeds v3 v4 e = (
    λ h.
        let (_, known, rest) =
          bind-Succeeds
            (fail_if (tx.f_overwintered && not (v3 || v4))
              (invalid_format "unknown overwinter transaction format"))
            _ h in
        let (e₁, splits, _) =
          bind-Succeeds
            (if leb_ℤ (pos 2) tx.version
              then write_join_splits tx (write_inputs tx v3 v4 e)
              else ok (write_inputs tx v3 v4 e))
            _ rest in
        (
          fail_if-eq-ok _ _ known,
          (write_splits-Succeeds (leb_ℤ (pos 2) tx.version) (write_inputs tx v3 v4 e)).0
              (e₁, splits),
        ),
    λ h. rw h.0 (
        Succeeds-bind _
          ((write_splits-Succeeds (leb_ℤ (pos 2) tx.version) (write_inputs tx v3 v4 e)).1 h.1)
          λ e'. (_, refl)),
  )
