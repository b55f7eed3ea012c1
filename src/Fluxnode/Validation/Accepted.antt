-- ===== src/Fluxnode/Validation/Accepted.antt =====
-- What an accepted payload of crates/fluxnode/src/validation.rs is.
use Prim.Native.String.{String}
use fluxd_rust.Prelude.{
  ℕ, ◌%◌, ◌^◌, ◌≤◌, ◌≡◌, ◌⊎◌, ◌↔◌, refl, List, [], ◌∷◌, length, is_nil, Bool, true, false, not,
  ◌&&◌, ◌||◌, Option, none, some, ltb, ◌==◌, inl, inr, Bool-cases, or-false, arith,
}
use fluxd_rust.Prelude.Int.{ℤ, pos, eq_ℤ, eq_ℤ-true, eq_ℤ_refl}
use fluxd_rust.Prelude.Result.{ok, fail_if, fail_if-eq-ok, >>=-eq-ok}
use fluxd_rust.Primitives.Bytes.{as_unsigned}
use fluxd_rust.Primitives.Encoding.Reads.{All}
use fluxd_rust.Primitives.FluxnodeTransaction.{
  FluxnodeDelegates, FluxnodeStartV5, FluxnodeStartV6, start_v5, confirm_v5, start_v6, confirm_v6,
  FluxnodeTx, v5, v6,
}
use fluxd_rust.Primitives.FluxnodeTransaction.Version.{
  is_normal, is_p2sh, has_flux_tx_delegates_feature, low_bits_decide,
}
use fluxd_rust.Fluxnode.Validation.{
  validate_fluxnode_v5, check_keys, check_delegates, check_feature, check_start_v6,
  validate_fluxnode_v6, validate_fluxnode_tx,
}

module _ (is_key : List ℕ → Bool) where
  abbrev pub IsCompressedKey : List ℕ → Type 0
  IsCompressedKey key = (length key ≡ 33) × (is_key key ≡ true)

  check_keys_iff :
      (keys : List (List ℕ)) → (check_keys is_key keys ≡ ok tt) ↔ All IsCompressedKey keys
  unfolding check_keys
  check_keys_iff [] = (λ h. tt, λ h. refl)
  check_keys_iff (key ∷ keys) =
      (λ h. ground (arith, (check_keys_iff keys).0), λ h. ground (arith, (check_keys_iff keys).1))

  -- At most four compressed keys, for an update or for signing.
  pub record AreDelegates (d : FluxnodeDelegates) : Type 0 where
    pub kind_known : (d.kind ≡ 1) ⊎ (d.kind ≡ 2)
    pub keys_few : length d.delegate_starting_keys ≤ 4
    pub keys_compressed : All IsCompressedKey d.delegate_starting_keys

  check_delegates_iff :
      (d : FluxnodeDelegates) → (check_delegates is_key d ≡ ok tt) ↔ AreDelegates d
  unfolding check_delegates
  check_delegates_iff d = (sound, complete)
    where
      kind : (n : ℕ) → (not (n == 1) && not (n == 2)) ≡ false → (n ≡ 1) ⊎ (n ≡ 2)
      kind n h = elim (Bool-cases (n == 1)) [
        | inl e ↦ inl (ground arith)
        | inr e ↦ inr (ground arith)
      ]

      sound : check_delegates is_key d ≡ ok tt → AreDelegates d
      sound h =
          let (_, a, h₁) =
            >>=-eq-ok
              (fail_if (not (d.kind == 1) && not (d.kind == 2))
                "fluxnode v6 delegates has invalid type")
              _ h in
          let (_, b, h₂) =
            >>=-eq-ok
              (fail_if (ltb 4 (length d.delegate_starting_keys))
                "fluxnode v6 delegates has too many keys")
              _ h₁ in
          let few = fail_if-eq-ok _ _ b in
          record {
            kind_known = kind d.kind (fail_if-eq-ok _ _ a);
            keys_few = ground arith;
            keys_compressed = (check_keys_iff d.delegate_starting_keys).0 h₂;
          }

      complete : AreDelegates d → check_delegates is_key d ≡ ok tt
      complete a =
          let k : (not (d.kind == 1) && not (d.kind == 2)) ≡ false = elim a.kind_known [
            | inl e ↦ ground arith
            | inr e ↦ ground arith
          ] in
          let few : ltb 4 (length d.delegate_starting_keys) ≡ false = ground (arith, a.keys_few) in
          rw (k, few) ((check_keys_iff d.delegate_starting_keys).1 a.keys_compressed)

  -- Delegates are there and in use with the feature, and neither without it.
  abbrev pub FeatureMatches : Bool → Bool → Option FluxnodeDelegates → Type 0
  FeatureMatches true true (some d) = AreDelegates d
  FeatureMatches true true none = ⊥
  FeatureMatches true false delegates = ⊥
  FeatureMatches false true delegates = ⊥
  FeatureMatches false false (some d) = ⊥
  FeatureMatches false false none = Unit {0}

  check_feature_iff :
      (feature using_delegates : Bool) (delegates : Option FluxnodeDelegates)
      → (check_feature is_key feature using_delegates delegates ≡ ok tt)
        ↔ FeatureMatches feature using_delegates delegates
  unfolding check_feature
  check_feature_iff true true (some d) = check_delegates_iff d
  check_feature_iff true true none = (λ h. cc, λ h. absurd h)
  check_feature_iff true false delegates = (λ h. cc, λ h. absurd h)
  check_feature_iff false true delegates = (λ h. cc, λ h. absurd h)
  check_feature_iff false false (some d) = (λ h. cc, λ h. absurd h)
  check_feature_iff false false none = (λ h. tt, λ h. refl)

  -- One of the two types by the lowest bits of the version.
  abbrev pub HasType : ℤ → Type 0
  HasType version = (as_unsigned (2 ^ 32) version % 4 ≡ 1) ⊎ (as_unsigned (2 ^ 32) version % 4 ≡ 2)

  HasType-iff :
      (version : ℤ) → (not (is_normal version || is_p2sh version) ≡ false) ↔ HasType version
  HasType-iff version =
      let (n, p) = low_bits_decide version in
      rw (n, p)
        (
          λ h. elim (Bool-cases (as_unsigned (2 ^ 32) version % 4 == 1)) [
            | inl e ↦ inl (ground arith)
            | inr e ↦ inr (ground arith)
          ],
          λ t. elim t [ inl e ↦ rw e refl | inr e ↦ rw e refl ],
        )

  -- The payloads that a transaction of a version may carry.
  abbrev pub IsPayload : FluxnodeTx → ℤ → Type 0
  IsPayload (v5 (start_v5 start)) version =
      (version ≡ pos 5) × (is_nil start.collateral_pubkey ≡ false) × (is_nil start.pubkey ≡ false)
  IsPayload (v5 (confirm_v5 confirm)) version = version ≡ pos 5
  IsPayload (v6 (start_v6 start)) version =
      (version ≡ pos 6)
      × HasType start.flux_tx_version
      × FeatureMatches (has_flux_tx_delegates_feature start.flux_tx_version) start.using_delegates
          start.delegates
  IsPayload (v6 (confirm_v6 confirm)) version = version ≡ pos 6

  version_iff :
      (version : ℤ) (n : ℕ) (reason : String)
      → (fail_if (not (eq_ℤ version (pos n))) reason ≡ ok tt) ↔ (version ≡ pos n)
  version_iff version n reason = (
    λ h. eq_ℤ-true version (pos n) (not_false (eq_ℤ version (pos n)) (fail_if-eq-ok _ reason h)),
    λ e. rw (e, eq_ℤ_refl (pos n)) refl,
  )
    where
      not_false : (b : Bool) → not b ≡ false → b ≡ true
      not_false true h = refl
      not_false false h = cc

  start_v6_iff :
      (start : FluxnodeStartV6)
      → (check_start_v6 is_key start ≡ ok tt) ↔ (
          HasType start.flux_tx_version
          × FeatureMatches
              (has_flux_tx_delegates_feature start.flux_tx_version)
              start.using_delegates
              start.delegates)
  unfolding check_start_v6
  start_v6_iff start =
      let v = start.flux_tx_version in
      let feature =
        check_feature_iff (has_flux_tx_delegates_feature v) start.using_delegates start.delegates in
      (
        λ h.
            let (_, a, h₁) =
              >>=-eq-ok
                (fail_if (not (is_normal v || is_p2sh v))
                  "fluxnode v6 start has invalid version bits")
                _ h in
            ((HasType-iff v).0 (fail_if-eq-ok _ _ a), feature.0 h₁),
        λ t. rw ((HasType-iff v).1 t.0) (feature.1 t.1),
      )

  start_v5_iff :
      (start : FluxnodeStartV5) (version : ℤ)
      → (validate_fluxnode_v5 (start_v5 start) version ≡ ok tt)
        ↔ IsPayload (v5 (start_v5 start)) version
  unfolding validate_fluxnode_v5
  start_v5_iff start version =
      let five = version_iff version 5 "fluxnode v5 payload used with non-v5 transaction" in
      (
        λ h.
            let (_, a, h₁) =
              >>=-eq-ok
                (fail_if (not (eq_ℤ version (pos 5)))
                  "fluxnode v5 payload used with non-v5 transaction")
                _ h in
            let keys = fail_if-eq-ok (is_nil start.collateral_pubkey || is_nil start.pubkey) _ h₁ in
            let both = or-false (is_nil start.collateral_pubkey) (is_nil start.pubkey) keys in
            (five.0 a, both.0, both.1),
        λ t. rw (five.1 t.0, t.1, t.2) refl,
      )

  -- A payload is accepted for a transaction's version exactly when it is of that version; a start
  -- of version 5 has both its keys; one of version 6 is normal or P2SH by the lowest bits of its
  -- own version, and has delegates in use just where that version has the feature, which are
  -- then an update or for signing, with at most four compressed keys.
  pub validate_fluxnode_tx_iff :
      (tx : FluxnodeTx) (version : ℤ)
      → (validate_fluxnode_tx is_key tx version ≡ ok tt) ↔ IsPayload tx version
  unfolding validate_fluxnode_tx validate_fluxnode_v6
  validate_fluxnode_tx_iff (v5 (start_v5 start)) version = start_v5_iff start version
  validate_fluxnode_tx_iff (v5 (confirm_v5 confirm)) version =
      unfold validate_fluxnode_v5 in
      version_iff version 5 "fluxnode v5 payload used with non-v5 transaction"
  validate_fluxnode_tx_iff (v6 (start_v6 start)) version =
      let six = version_iff version 6 "fluxnode v6 payload used with non-v6 transaction" in
      let inner = start_v6_iff start in
      (
        λ h.
            let (_, a, h₁) =
              >>=-eq-ok
                (fail_if (not (eq_ℤ version (pos 6)))
                  "fluxnode v6 payload used with non-v6 transaction")
                _ h in
            (six.0 a, (inner.0 h₁).0, (inner.0 h₁).1),
        λ t. rw (six.1 t.0) (inner.1 (t.1, t.2)),
      )
  validate_fluxnode_tx_iff (v6 (confirm_v6 confirm)) version =
      version_iff version 6 "fluxnode v6 payload used with non-v6 transaction"
