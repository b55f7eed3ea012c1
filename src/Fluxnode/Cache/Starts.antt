-- ===== src/Fluxnode/Cache/Starts.antt =====
-- cache.rs: what the start transactions of both versions leave in the store.
use fluxd_rust.Prelude.{
  ℕ, ◌^◌, ◌<◌, ◌≡◌, refl, List, [], ◌∷◌, is_nil, Bool, true, false, length, Option, none, some,
  ◌==◌, inl, inr, Bool-cases, arith,
}
use fluxd_rust.Prelude.Result.{ok}
use fluxd_rust.Primitives.Bytes.{IsSigned}
use fluxd_rust.Primitives.OutPoint.{IsOutPoint}
use fluxd_rust.Storage.Batch.{WriteBatch, KeyValueStore}
use fluxd_rust.Storage.Memory.Lookup.{StoreLaws}
use fluxd_rust.Fluxnode.Record.{FluxnodeRecord}
use fluxd_rust.Fluxnode.Record.Formats.{IsFluxnodeRecord, IsKey}
use fluxd_rust.Primitives.FluxnodeTransaction.{
  FluxnodeDelegates, FluxnodeStartV6, FluxnodeStartVariantV6, normal, p2sh,
}
use fluxd_rust.Fluxnode.Cache.{
  FluxnodeStartMeta, meta_given, store_fluxnode_start, load_fluxnode_record, lookup_operator_pubkey,
  delegates_of, delegates_key, delegates_key_for_start, apply_start_v6, apply_fluxnode_tx,
}
use fluxd_rust.Fluxnode.Cache.Started.{after, load-started, lookup-started}
use fluxd_rust.Fluxnode.Cache.Given.{
  Start, of_v5, of_v6, payload, StartKeys, variant_keys, start_keys, delegates_held, updated,
  delegates_after, Apart, started_record, same_key, IsKey-hashed, IsKey-delegates_after,
}

length-is_nil : (keys : List (List ℕ)) → (length keys == 0) ≡ is_nil keys
length-is_nil [] = refl
length-is_nil (key ∷ keys) = ground arith

module _ (sha256d : List ℕ → List ℕ) where
  module _ (is_utf8 : List ℕ → Bool) {S : Type 0} (store : KeyValueStore S) where
    delegates_of_lem :
        (old : Option FluxnodeRecord) → delegates_of sha256d is_utf8 store old ≡ delegates_held old
    unfolding delegates_of
    delegates_of_lem none = refl
    delegates_of_lem (some r) = refl

    delegates_key-updated :
        (used : Bool) (delegates : Option FluxnodeDelegates) (held : Option (List ℕ))
        (b : WriteBatch)
        → (delegates_key sha256d is_utf8 store used delegates held b).1
          ≡ updated sha256d used delegates held
    unfolding delegates_key
    delegates_key-updated false none held b = refl
    delegates_key-updated true none held b = refl
    delegates_key-updated false (some d) held b = refl
    delegates_key-updated true (some d) held b = elim (Bool-cases (d.kind == 1)) [
      | inl update ↦
          rw (update, length-is_nil d.delegate_starting_keys)
            (elim (Bool-cases (is_nil d.delegate_starting_keys)) [
              | inl empty ↦ rw empty refl
              | inr keys ↦ rw keys refl
            ])
      | inr other ↦ rw other refl
    ]

    module _ (laws : StoreLaws store) (s : S) where
      -- The batch with the delegates of a start.
      abbrev before_start : Start → Option FluxnodeRecord → WriteBatch → WriteBatch
      before_start (of_v5 start) old b = b
      before_start (of_v6 start) old b =
          (delegates_key sha256d is_utf8 store start.using_delegates start.delegates
            (delegates_held old) b).0

      applied_variant :
          (start : FluxnodeStartV6) (variant : FluxnodeStartVariantV6) (height : ℕ)
          (meta : FluxnodeStartMeta) (old : Option FluxnodeRecord) (b : WriteBatch)
          → load_fluxnode_record sha256d is_utf8 store (variant_keys variant).collateral s ≡ ok old
          → apply_start_v6 sha256d is_utf8 store height meta start variant s b
            ≡ ok (
                store_fluxnode_start sha256d
                  (variant_keys variant).collateral
                  (variant_keys variant).operator
                  (variant_keys variant).collateral_pubkey
                  (variant_keys variant).redeem_script
                  (delegates_after sha256d (of_v6 start) (delegates_held old))
                  height
                  meta
                  (before_start (of_v6 start) old b))
      unfolding apply_start_v6 delegates_key_for_start
      applied_variant start (normal _ _ _ _ _) height meta old b held =
          rw
            (
              held,
              delegates_of_lem old,
              delegates_key-updated start.using_delegates start.delegates (delegates_held old) b,
            )
            refl
      applied_variant start (p2sh _ _ _ _ _) height meta old b held =
          rw
            (
              held,
              delegates_of_lem old,
              delegates_key-updated start.using_delegates start.delegates (delegates_held old) b,
            )
            refl

      applied :
          (start : Start) (height : ℕ) (meta : FluxnodeStartMeta) (old : Option FluxnodeRecord)
          (b : WriteBatch)
          → load_fluxnode_record sha256d is_utf8 store (start_keys start).collateral s ≡ ok old
          → apply_fluxnode_tx sha256d is_utf8 store (some (payload start)) height (some meta) s b
            ≡ ok (
                store_fluxnode_start sha256d
                  (start_keys start).collateral
                  (start_keys start).operator
                  (start_keys start).collateral_pubkey
                  (start_keys start).redeem_script
                  (delegates_after sha256d start (delegates_held old))
                  height
                  meta
                  (before_start start old b))
      unfolding apply_fluxnode_tx meta_given
      applied (of_v5 start) height meta old b held = rw (held, delegates_of_lem old) refl
      applied (of_v6 start) height meta old b held =
          applied_variant start start.variant height meta old b held

      -- What is found behind a batch that stores a start over some earlier one.
      found :
          (k : StartKeys) (delegates : Option (List ℕ)) (height : ℕ) (meta : FluxnodeStartMeta)
          (b : WriteBatch)
          → ((bytes : List ℕ) → length (sha256d bytes) ≡ 32)
          → Apart sha256d k.operator k.collateral_pubkey
          → Apart sha256d k.operator k.redeem_script
          → is_utf8 [] ≡ true
          → IsOutPoint k.collateral
          → height < 2 ^ 32
          → IsSigned (2 ^ 64) meta.collateral_value
          → IsKey delegates
          → (lookup_operator_pubkey sha256d is_utf8 store k.collateral (
                after store laws s sha256d is_utf8 k.collateral k.operator k.collateral_pubkey
                  k.redeem_script delegates height meta b)
              ≡ ok (some k.operator))
            × (load_fluxnode_record sha256d is_utf8 store k.collateral (
                  after store laws s sha256d is_utf8 k.collateral k.operator k.collateral_pubkey
                    k.redeem_script delegates height meta b)
                ≡ ok (some (started_record sha256d k delegates height meta)))
      found k delegates height meta b size apart apart' utf8 place low signed key =
          let valid : IsFluxnodeRecord is_utf8 (started_record sha256d k delegates height meta) =
            record {
              collateral_sizes = place;
              start_height_range = low;
              confirmed_height_range = omega arith;
              last_confirmed_height_range = low;
              last_paid_height_range = omega arith;
              collateral_value_range = signed;
              operator_pubkey_size = size k.operator;
              collateral_pubkey_size = IsKey-hashed sha256d size k.collateral_pubkey;
              p2sh_script_size = IsKey-hashed sha256d size k.redeem_script;
              delegates_size = key;
              ip_size = omega arith;
              ip_utf8 = utf8;
            } in
          (
            lookup-started store laws s sha256d is_utf8 k.collateral k.operator k.collateral_pubkey
                k.redeem_script delegates height meta b valid
                (same_key sha256d k.operator k.collateral_pubkey apart)
                (same_key sha256d k.operator k.redeem_script apart'),
            load-started store laws s sha256d is_utf8 k.collateral k.operator k.collateral_pubkey
                k.redeem_script delegates height meta b valid,
          )

      -- A start of either version, in a store that is a map and with the sizes that its types give:
      -- `apply_fluxnode_tx` succeeds, and behind its batch the operator's public key is found under
      -- the collateral, in a record that is not confirmed, with the start's height, the hashes of
      -- the start's keys and no ip. Its delegates are those of the record before, unless the start
      -- is of version 6 and updates them. SHA-256 gives 32 bytes and tells the operator's key from
      -- the other keys of the start.
      pub apply_start-lookup :
          (start : Start) (height : ℕ) (meta : FluxnodeStartMeta) (old : Option FluxnodeRecord)
          (b : WriteBatch)
          → ((bytes : List ℕ) → length (sha256d bytes) ≡ 32)
          → Apart sha256d (start_keys start).operator (start_keys start).collateral_pubkey
          → Apart sha256d (start_keys start).operator (start_keys start).redeem_script
          → is_utf8 [] ≡ true
          → IsOutPoint (start_keys start).collateral
          → height < 2 ^ 32
          → IsSigned (2 ^ 64) meta.collateral_value
          → load_fluxnode_record sha256d is_utf8 store (start_keys start).collateral s ≡ ok old
          → IsKey (delegates_held old)
          → (b' : WriteBatch) × (apply_fluxnode_tx sha256d is_utf8 store
                (some (payload start))
                height
                (some meta)
                s
                b
              ≡ ok b')
            × (lookup_operator_pubkey sha256d is_utf8 store
                  (start_keys start).collateral
                  (store.write_batch b' s).0
                ≡ ok (some (start_keys start).operator))
            × (load_fluxnode_record sha256d is_utf8 store
                  (start_keys start).collateral
                  (store.write_batch b' s).0
                ≡ ok (
                    some (
                      started_record sha256d
                        (start_keys start)
                        (delegates_after sha256d start (delegates_held old))
                        height
                        meta)))
      apply_start-lookup start height meta old b size apart apart' utf8 place low signed held key =
          let k = start_keys start in
          let b₁ = before_start start old b in
          let d = delegates_after sha256d start (delegates_held old) in
          let (operator, loaded) =
            found k d height meta b₁ size apart apart' utf8 place low signed
              (IsKey-delegates_after sha256d size start (delegates_held old) key) in
          (_, applied start height meta old b held, operator, loaded)
