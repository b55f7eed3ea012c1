-- ===== src/Primitives/Transaction/Encode/Success.antt =====
-- transaction.rs: `encode_with_mode` ends without an error just on the transactions of its formats.
use fluxd_rust.Prelude.{
  ℕ, ◌≡◌, ◌⊎◌, ◌↔◌, refl, List, Bool, true, false, not, ◌&&◌, ◌||◌, inl, inr, Bool-cases, arith,
}
use fluxd_rust.Prelude.Int.{ℤ, pos, eq_ℤ, eq_ℤ-true, leb_ℤ}
use fluxd_rust.Prelude.Result.{ok}
use fluxd_rust.Primitives.Encoding.{Encoder, new_encoder}
use fluxd_rust.Primitives.Transaction.{Transaction, is_overwinter_v3, is_sapling_v4}
use fluxd_rust.Primitives.Transaction.Encode.{
  encode_payload, encode_body, encode_into, encode_with_mode,
}
use fluxd_rust.Primitives.Transaction.Encode.Encodable.{
  Succeeds, Succeeds-bind, IsEncodable, with_v5, with_v6, sprout, overwinter, sapling, AllKind,
  AllKind-groth, AllKind-phgr,
}
use fluxd_rust.Primitives.Transaction.Encode.Steps.{
  bind-Succeeds, present_v5, present_v6, encode_formats-Succeeds,
}

eq_ℤ-false : (a b : ℤ) → ¬ (a ≡ b) → eq_ℤ a b ≡ false
eq_ℤ-false a b other = elim (Bool-cases (eq_ℤ a b)) [
  | inl same ↦ absurd (other (eq_ℤ-true a b same))
  | inr different ↦ different
]

taken : {A : Type 0} → (true ≡ false) ⊎ A → A
taken (inl h) = cc
taken (inr a) = a

module _ (tx : Transaction) where
  -- The formats that are not those of fluxnodes, from the encoder's tests.
  formats-IsEncodable :
      (f : Bool)
      → tx.f_overwintered ≡ f
      → ¬ (tx.version ≡ pos 5)
      → ¬ (tx.version ≡ pos 6)
      → (f
          && not (
              is_overwinter_v3 f tx.version_group_id tx.version
              || is_sapling_v4 f tx.version_group_id tx.version))
        ≡ false
      → (leb_ℤ (pos 2) tx.version ≡ false) ⊎ AllKind (f && leb_ℤ (pos 4) tx.version) tx.join_splits
      → IsEncodable tx
  formats-IsEncodable false flag not_5 not_6 known (inl first) = sprout not_5 not_6 flag (inl first)
  formats-IsEncodable false flag not_5 not_6 known (inr kinds) =
      sprout not_5 not_6 flag (inr ((AllKind-phgr tx.join_splits).0 kinds))
  formats-IsEncodable true flag not_5 not_6 known splits =
      elim (Bool-cases (is_overwinter_v3 true tx.version_group_id tx.version)) [
        | inl v3 ↦
            let three = eq_ℤ-true tx.version (pos 3) (ground arith) in
            overwinter three flag (ground arith)
              ((AllKind-phgr tx.join_splits).0 (taken (rw three at splits)))
        | inr other ↦
            let v4 : is_sapling_v4 true tx.version_group_id tx.version ≡ true = ground arith in
            let four = eq_ℤ-true tx.version (pos 4) (ground arith) in
            sapling four flag (ground arith)
              ((AllKind-groth tx.join_splits).0 (taken (rw four at splits)))
      ]

  IsEncodable-encode_body :
      (include_signatures : Bool) (e : Encoder)
      → Succeeds (encode_body tx include_signatures e)
      → IsEncodable tx
  unfolding encode_body encode_payload
  IsEncodable-encode_body s e h = elim (Bool-cases (eq_ℤ tx.version (pos 5))) [
    | inl five ↦
        let (flag, (payload, held)) =
          (present_v5 tx.f_overwintered tx.fluxnode _ s e).0 (rw five at h) in
        with_v5 payload (eq_ℤ-true tx.version (pos 5) five) flag held
    | inr not_5 ↦ elim (Bool-cases (eq_ℤ tx.version (pos 6))) [
      | inl six ↦
          let (flag, (payload, held, good)) =
            (present_v6 tx.f_overwintered tx.fluxnode _ s e).0 (rw (not_5, six) at h) in
          with_v6 payload (eq_ℤ-true tx.version (pos 6) six) flag held good
      | inr not_6 ↦
          let v3 = is_overwinter_v3 tx.f_overwintered tx.version_group_id tx.version in
          let v4 = is_sapling_v4 tx.f_overwintered tx.version_group_id tx.version in
          let (known, splits) = (encode_formats-Succeeds tx v3 v4 e).0 (rw (not_5, not_6) at h) in
          formats-IsEncodable tx.f_overwintered refl (λ v. ground arith) (λ v. ground arith) known
            splits
    ]
  ]

  formats-encoded :
      (include_signatures : Bool) (e : Encoder)
      → eq_ℤ tx.version (pos 5) ≡ false
      → eq_ℤ tx.version (pos 6) ≡ false
      → (tx.f_overwintered
          && not (
              is_overwinter_v3 tx.f_overwintered tx.version_group_id tx.version
              || is_sapling_v4 tx.f_overwintered tx.version_group_id tx.version))
        ≡ false
      → (leb_ℤ (pos 2) tx.version ≡ false)
        ⊎ AllKind (tx.f_overwintered && leb_ℤ (pos 4) tx.version) tx.join_splits
      → Succeeds (encode_body tx include_signatures e)
  unfolding encode_body
  formats-encoded s e not_5 not_6 known splits =
      rw (not_5, not_6)
        ((encode_formats-Succeeds tx
            (is_overwinter_v3 tx.f_overwintered tx.version_group_id tx.version)
            (is_sapling_v4 tx.f_overwintered tx.version_group_id tx.version) e).1
          (known, splits))

  encode_body-IsEncodable :
      (include_signatures : Bool) (e : Encoder)
      → IsEncodable tx
      → Succeeds (encode_body tx include_signatures e)
  unfolding encode_body encode_payload
  encode_body-IsEncodable s e (with_v5 payload five flag held) =
      rw five ((present_v5 tx.f_overwintered tx.fluxnode _ s e).1 (flag, (payload, held)))
  encode_body-IsEncodable s e (with_v6 payload six flag held good) =
      rw six ((present_v6 tx.f_overwintered tx.fluxnode _ s e).1 (flag, (payload, held, good)))
  encode_body-IsEncodable s e (sprout not_5 not_6 flag splits) =
      let kinds : (leb_ℤ (pos 2) tx.version ≡ false) ⊎ AllKind false tx.join_splits = elim splits [
        | inl first ↦ inl first
        | inr proofs ↦ inr ((AllKind-phgr tx.join_splits).1 proofs)
      ] in
      formats-encoded s e (eq_ℤ-false tx.version (pos 5) not_5)
        (eq_ℤ-false tx.version (pos 6) not_6) (rw flag refl) (rw flag kinds)
  encode_body-IsEncodable s e (overwinter three flag group kinds) =
      formats-encoded s e (rw three refl) (rw three refl) (rw (three, flag, group) refl)
        (rw (three, flag) (inr ((AllKind-phgr tx.join_splits).1 kinds)))
  encode_body-IsEncodable s e (sapling four flag group kinds) =
      formats-encoded s e (rw four refl) (rw four refl) (rw (four, flag, group) refl)
        (rw (four, flag) (inr ((AllKind-groth tx.join_splits).1 kinds)))

  -- Encoding a transaction ends without an error, with the signatures or without them, exactly when
  -- the transaction is of one of these formats: version 5 or 6 without the flag of overwinter and with
  -- a payload of that version, where a start of version 6 has the variant that the lowest bits of
  -- its own version name, and has the delegates if it uses them and the version has their bit;
  -- another version without the flag, with PHGR proofs in its join splits if it is not below 2;
  -- version 3 with the flag, the group of overwinter and PHGR proofs; or version 4 with the flag, the
  -- group of Sapling and Groth proofs.
  pub encode_with_mode-IsEncodable :
      (include_signatures : Bool)
      → ((bytes : List ℕ) × (encode_with_mode tx include_signatures ≡ ok bytes)) ↔ IsEncodable tx
  unfolding encode_with_mode encode_into
  encode_with_mode-IsEncodable s = (
    λ h.
        let (e₁, body, _) = bind-Succeeds (encode_into tx s new_encoder) _ h in
        IsEncodable-encode_body s _ (e₁, body),
    λ h. Succeeds-bind _ (encode_body-IsEncodable s _ h) λ e. (_, refl),
  )
