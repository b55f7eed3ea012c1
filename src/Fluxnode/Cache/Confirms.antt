-- ===== src/Fluxnode/Cache/Confirms.antt =====
-- cache.rs: what the confirmations of both versions leave in the store.
use Prim.Native.String.{String}
use fluxd_rust.Prelude.{
  ℕ, zero, suc, ◌^◌, ◌≤◌, ◌<◌, ◌≡◌, ◌⊎◌, refl, List, Bool, true, false, length, Option, some, ◌==◌,
  inl, inr, Bool-cases, arith,
}
use fluxd_rust.Prelude.Result.{Result, ok, err}
use fluxd_rust.Primitives.Encoding.{max_compact_size}
use fluxd_rust.Storage.Batch
use fluxd_rust.Storage.Batch.{StoreError, backend, fluxnode, WriteBatch, KeyValueStore}
use fluxd_rust.Storage.Memory.Lookup.{StoreLaws}
use fluxd_rust.Fluxnode.Record
use fluxd_rust.Fluxnode.Record.{FluxnodeRecord}
use fluxd_rust.Fluxnode.Record.Formats.{IsFluxnodeRecord}
use fluxd_rust.Primitives.FluxnodeTransaction.{
  FluxnodeConfirmTx, FluxnodeTx, v5, v6, confirm_v5, confirm_v6,
}
use fluxd_rust.Fluxnode.Cache.{
  FluxnodeStartMeta, outpoint_key, confirm_heights, load_fluxnode_record, confirm_record,
  update_fluxnode_confirm, apply_fluxnode_tx,
}
use fluxd_rust.Fluxnode.Cache.Started.{load-put}

-- The height of the first confirmation behind one: the first sets it, another one and an update
-- keep it.
abbrev pub IsFirst : (update_type height before after : ℕ) → Type 0
IsFirst update_type height before after =
    ((update_type ≡ 0) × (before ≡ 0) × (after ≡ height))
    ⊎ (((update_type ≡ 0) ⊎ (update_type ≡ 1)) × (0 < before) × (after ≡ before))

-- The confirmations that are refused: an update before any other, and those of no known type.
abbrev pub IsRefused : (update_type before : ℕ) → String → Type 0
IsRefused update_type before reason =
    ((update_type ≡ 1) × (before ≡ 0) × (reason ≡ "fluxnode update confirm before initial confirm"))
    ⊎ ((1 < update_type) × (reason ≡ "fluxnode confirm has invalid update type"))

confirm_heights_lem :
    (update_type height : ℕ) (r : FluxnodeRecord)
    → ((first : ℕ) × IsFirst update_type height r.confirmed_height first
        × (confirm_heights update_type height r
            ≡ ok (record r { confirmed_height = first; last_confirmed_height = height })))
      ⊎ ((reason : String) × IsRefused update_type r.confirmed_height reason
          × (confirm_heights update_type height r ≡ err (backend reason)))
unfolding confirm_heights
confirm_heights_lem zero height r = elim (Bool-cases (r.confirmed_height == 0)) [
  | inl never ↦ inl (height, inl (refl, ground arith, refl), rw never refl)
  | inr before ↦ inl (r.confirmed_height, inr (inl refl, ground arith, refl), rw before refl)
]
confirm_heights_lem (suc zero) height r = elim (Bool-cases (r.confirmed_height == 0)) [
  | inl never ↦ inr (_, inl (refl, ground arith, refl), rw never refl)
  | inr before ↦ inl (r.confirmed_height, inr (inr refl, ground arith, refl), rw before refl)
]
confirm_heights_lem (suc (suc n)) height r =
    let not_0 : (suc (suc n) == 0) ≡ false = ground arith in
    let not_1 : (suc (suc n) == 1) ≡ false = ground arith in
    inr (_, inr (omega arith, refl), rw (not_0, not_1) refl)

IsFirst-lt :
    (update_type height before after : ℕ)
    → IsFirst update_type height before after
    → height < 2 ^ 32
    → before < 2 ^ 32
    → after < 2 ^ 32
IsFirst-lt update_type height before after (inl (_, _, e)) low held = omega arith
IsFirst-lt update_type height before after (inr (_, _, e)) low held = omega arith

module _ {S : Type 0} (store : KeyValueStore S) (laws : StoreLaws store) (s : S)
    (sha256d : List ℕ → List ℕ) (is_utf8 : List ℕ → Bool) where
  -- What applying a confirmation comes to, for the record that is held.
  abbrev pub Outcome :
      FluxnodeConfirmTx → ℕ → FluxnodeRecord → Result StoreError WriteBatch → Type 0
  Outcome confirm height r result =
      ((first : ℕ) × IsFirst confirm.update_type height r.confirmed_height first
        × (b' : WriteBatch) × (result ≡ ok b')
        × (load_fluxnode_record sha256d is_utf8 store confirm.collateral (store.write_batch b' s).0
            ≡ ok (
                some (record r {
                  confirmed_height = first;
                  last_confirmed_height = height;
                  ip = confirm.ip;
                }))))
      ⊎ ((reason : String) × IsRefused confirm.update_type r.confirmed_height reason
          × (result ≡ err (backend reason)))

  Outcome-update :
      (confirm : FluxnodeConfirmTx) (height : ℕ) (r : FluxnodeRecord) (b : WriteBatch)
      → load_fluxnode_record sha256d is_utf8 store confirm.collateral s ≡ ok (some r)
      → IsFluxnodeRecord is_utf8 r
      → height < 2 ^ 32
      → length confirm.ip ≤ max_compact_size
      → is_utf8 confirm.ip ≡ true
      → Outcome confirm height r (update_fluxnode_confirm sha256d is_utf8 store height confirm s b)
  unfolding update_fluxnode_confirm confirm_record
  Outcome-update confirm height r b held valid low ip_size ip_utf8 =
      elim (confirm_heights_lem confirm.update_type height r) [
        | inl (first, is_first, set) ↦
            let r' = record r {
              confirmed_height = first;
              last_confirmed_height = height;
              ip = confirm.ip;
            } in
            let range =
              IsFirst-lt confirm.update_type height r.confirmed_height first is_first low
                valid.confirmed_height_range in
            inl (
              first,
              is_first,
              Batch.put fluxnode (outpoint_key confirm.collateral) (Record.encode r') b,
              rw (held, set) refl,
              load-put store laws s sha256d is_utf8 confirm.collateral r' b (record {
                collateral_sizes = valid.collateral_sizes;
                start_height_range = valid.start_height_range;
                last_paid_height_range = valid.last_paid_height_range;
                collateral_value_range = valid.collateral_value_range;
                operator_pubkey_size = valid.operator_pubkey_size;
                collateral_pubkey_size = valid.collateral_pubkey_size;
                p2sh_script_size = valid.p2sh_script_size;
                delegates_size = valid.delegates_size;
                confirmed_height_range = range;
                last_confirmed_height_range = low;
                ip_size = ip_size;
                ip_utf8 = ip_utf8;
              }),
            )
        | inr (reason, refused, e) ↦ inr (reason, refused, rw (held, e) refl)
      ]

  -- A confirmation of either version, of a fluxnode whose record is held, with fields within the
  -- ranges of their types: the first one, the later ones of its type and an update behind a first
  -- one succeed, and behind the batch the record has the height as that of the last confirmation,
  -- as that of the first one only when there was none before, and the confirmation's ip. An update
  -- before a first confirmation, and a type of update that is not 0 or 1, are refused with their
  -- errors.
  pub apply_confirm-Outcome :
      (tx : FluxnodeTx) (confirm : FluxnodeConfirmTx) (height : ℕ)
      (start_meta : Option FluxnodeStartMeta) (r : FluxnodeRecord) (b : WriteBatch)
      → (tx ≡ v5 (confirm_v5 confirm)) ⊎ (tx ≡ v6 (confirm_v6 confirm))
      → load_fluxnode_record sha256d is_utf8 store confirm.collateral s ≡ ok (some r)
      → IsFluxnodeRecord is_utf8 r
      → height < 2 ^ 32
      → length confirm.ip ≤ max_compact_size
      → is_utf8 confirm.ip ≡ true
      → Outcome confirm height r
          (apply_fluxnode_tx sha256d is_utf8 store (some tx) height start_meta s b)
  unfolding apply_fluxnode_tx
  apply_confirm-Outcome tx confirm height start_meta r b either held valid low size utf8 =
      let updated = Outcome-update confirm height r b held valid low size utf8 in
      elim either [ inl e ↦ rw e updated | inr e ↦ rw e updated ]
