-- ===== src/Fluxnode/Cache/Started.antt =====
-- cache.rs: the batch of a start, and what is found behind it.
use fluxd_rust.Prelude.{
  ℕ, ◌≡◌, refl, ap, ◌∙◌, List, [], ◌∷◌, Bool, Bool-cases, inl, inr, Option, none, some,
}
use fluxd_rust.Prelude.Result.{ok}
use fluxd_rust.Primitives.OutPoint.{OutPoint}
use fluxd_rust.Storage.Batch
use fluxd_rust.Storage.Batch.{
  StoreError, backend, Column, index, bit, trailing_zeros, fluxnode, fluxnode_key, WriteBatch,
  put_op, KeyValueStore,
}
use fluxd_rust.Storage.Memory.{same_bytes}
use fluxd_rust.Storage.Memory.Lookup.{
  Map, assign, assign_all, assign_all-append, assign_same, StoreLaws, same_bytes-eq,
}
use fluxd_rust.Fluxnode.Record
use fluxd_rust.Fluxnode.Record.{FluxnodeRecord, decode_fluxnode_record}
use fluxd_rust.Fluxnode.Record.Formats.{IsFluxnodeRecord, decode_fluxnode_record-encode}
use fluxd_rust.Fluxnode.Cache.{
  FluxnodeStartMeta, start_record, outpoint_key, store_key, store_optional, store_fluxnode_start,
  record_of, load_fluxnode_record, load_key, operator_of, lookup_operator_pubkey,
}

-- A value stays when another one is put under a different key, or the same one under its key.
assign_keeps :
    (k k' v w : List ℕ) (m : Map)
    → m fluxnode_key k' ≡ some w
    → (k' ≡ k → v ≡ w)
    → assign fluxnode_key k (some v) m fluxnode_key k' ≡ some w
unfolding assign index bit trailing_zeros
assign_keeps k k' v w m there same = elim (Bool-cases (same_bytes k' k)) [
  | inl hit ↦ rw hit (ap (λ x. some x) (same (same_bytes-eq k' k hit)))
  | inr miss ↦ rw miss there
]

-- A put in the column of the records leaves that of the keys as it is.
assign_column :
    (k k' : List ℕ) (v : Option (List ℕ)) (m : Map)
    → assign fluxnode k v m fluxnode_key k' ≡ m fluxnode_key k'
unfolding assign index bit trailing_zeros
assign_column k k' v m = refl

module _ {S : Type 0} (store : KeyValueStore S) (laws : StoreLaws store) (s : S) where
  -- The store's map behind a batch.
  abbrev behind : WriteBatch → Map
  behind b = assign_all b.ops (laws.view s)

  behind-put :
      (column : Column) (key value : List ℕ) (b : WriteBatch)
      → behind (Batch.put column key value b) ≡ assign column key (some value) (behind b)
  unfolding Batch.put assign_all
  behind-put column key value b =
      assign_all-append b.ops (put_op column key value ∷ []) (laws.view s)

  get-behind :
      (column : Column) (key : List ℕ) (b : WriteBatch)
      → store.get column key (store.write_batch b s).0 ≡ ok (behind b column key)
  get-behind column key b =
      laws.get-view column key (store.write_batch b s).0
      ∙ ap (λ (m : Map). ok (m column key)) (laws.write_batch-view b s)

  module _ (sha256d : List ℕ → List ℕ) (is_utf8 : List ℕ → Bool) where
    -- A record that was put last is loaded again.
    pub load-put :
        (o : OutPoint) (r : FluxnodeRecord) (b : WriteBatch)
        → IsFluxnodeRecord is_utf8 r
        → load_fluxnode_record sha256d is_utf8 store o
            (store.write_batch (Batch.put fluxnode (outpoint_key o) (Record.encode r) b) s).0
          ≡ ok (some r)
    unfolding load_fluxnode_record record_of
    load-put o r b valid =
        rw
          (
            get-behind fluxnode (outpoint_key o)
                (Batch.put fluxnode (outpoint_key o) (Record.encode r) b),
            behind-put fluxnode (outpoint_key o) (Record.encode r) b,
            assign_same fluxnode (outpoint_key o) (some (Record.encode r)) (behind b),
            decode_fluxnode_record-encode is_utf8 r valid,
          )
          refl

    -- A key that is in the batch's map stays there when an optional key is stored behind it.
    store_optional-keeps :
        (other : Option (List ℕ)) (b : WriteBatch) (w : List ℕ)
        → behind b fluxnode_key (sha256d w) ≡ some w
        → ((v : List ℕ) → other ≡ some v → sha256d w ≡ sha256d v → v ≡ w)
        → behind (store_optional sha256d other b).0 fluxnode_key (sha256d w) ≡ some w
    unfolding store_optional
    store_optional-keeps none b w there apart = there
    store_optional-keeps (some v) b w there apart =
        rw (behind-put fluxnode_key (sha256d v) v b)
          (assign_keeps (sha256d v) (sha256d w) v w (behind b) there (apart v refl))

    abbrev pub key_option : Option (List ℕ) → Option (List ℕ)
    key_option none = none
    key_option (some bytes) = some (sha256d bytes)

    store_optional_key :
        (o : Option (List ℕ)) (b : WriteBatch) → (store_optional sha256d o b).1 ≡ key_option o
    unfolding store_optional
    store_optional_key none b = refl
    store_optional_key (some bytes) b = refl

    module _ (collateral : OutPoint) (operator : List ℕ)
        (collateral_pubkey redeem_script delegates : Option (List ℕ)) (height : ℕ)
        (meta : FluxnodeStartMeta) (b : WriteBatch) where
      abbrev pub started : FluxnodeRecord
      started =
          start_record collateral (sha256d operator) (key_option collateral_pubkey)
            (key_option redeem_script) delegates height meta

      abbrev pub keys_stored : WriteBatch
      keys_stored =
          (store_optional sha256d redeem_script
            (store_optional sha256d collateral_pubkey (store_key sha256d operator b).0).0).0

      abbrev pub batch : WriteBatch
      batch =
          store_fluxnode_start sha256d collateral operator collateral_pubkey redeem_script delegates
            height meta b

      batch_lem :
          batch ≡ Batch.put fluxnode (outpoint_key collateral) (Record.encode started) keys_stored
      unfolding store_fluxnode_start
      batch_lem i =
          let b0 = (store_key sha256d operator b).0 in
          let k1 = store_optional_key collateral_pubkey b0 in
          let k2 =
            store_optional_key redeem_script (store_optional sha256d collateral_pubkey b0).0 in
          Batch.put fluxnode (outpoint_key collateral)
            (Record.encode
              (start_record collateral (sha256d operator) (k1 i) (k2 i) delegates height meta))
            keys_stored

      abbrev pub after : S
      after = (store.write_batch batch s).0

      pub load-started :
          IsFluxnodeRecord is_utf8 started
          → load_fluxnode_record sha256d is_utf8 store collateral after ≡ ok (some started)
      load-started valid =
          ap (λ c. load_fluxnode_record sha256d is_utf8 store collateral (store.write_batch c s).0)
            batch_lem
          ∙ load-put collateral started keys_stored valid

      key-started :
          behind keys_stored fluxnode_key (sha256d operator) ≡ some operator
          → store.get fluxnode_key (sha256d operator) after ≡ ok (some operator)
      key-started there =
          let key = sha256d operator in
          let written =
            Batch.put fluxnode (outpoint_key collateral) (Record.encode started) keys_stored in
          ap (λ c. store.get fluxnode_key key (store.write_batch c s).0) batch_lem
          ∙ get-behind fluxnode_key key written
          ∙ ap (λ (m : Map). ok (m fluxnode_key key))
              (behind-put fluxnode (outpoint_key collateral) (Record.encode started) keys_stored)
          ∙ ap (λ v. ok v)
              (assign_column (outpoint_key collateral) key (some (Record.encode started))
                  (behind keys_stored)
                ∙ there)

      pub lookup-started :
          IsFluxnodeRecord is_utf8 started
          → ((v : List ℕ)
              → collateral_pubkey ≡ some v
              → sha256d operator ≡ sha256d v
              → v ≡ operator)
          → ((v : List ℕ) → redeem_script ≡ some v → sha256d operator ≡ sha256d v → v ≡ operator)
          → lookup_operator_pubkey sha256d is_utf8 store collateral after ≡ ok (some operator)
      unfolding lookup_operator_pubkey operator_of load_key
      lookup-started valid apart apart' =
          let b0 = (store_key sha256d operator b).0 in
          let b1 = (store_optional sha256d collateral_pubkey b0).0 in
          let first : behind b0 fluxnode_key (sha256d operator) ≡ some operator =
            ap (λ (m : Map). m fluxnode_key (sha256d operator))
              (behind-put fluxnode_key (sha256d operator) operator b)
            ∙ assign_same fluxnode_key (sha256d operator) (some operator) (behind b) in
          let second = store_optional-keeps collateral_pubkey b0 operator first apart in
          let third = store_optional-keeps redeem_script b1 operator second apart' in
          rw (load-started valid) (key-started third)
