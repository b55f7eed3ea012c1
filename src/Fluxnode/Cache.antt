-- ===== src/Fluxnode/Cache.antt =====
-- crates/fluxnode/src/cache.rs: the records of the fluxnodes in a key-value store, which the fluxnode
-- transactions start and confirm. SHA-256 and `String::from_utf8` are
-- parameters.
pub mod Started
pub mod Given
pub mod Starts
pub mod Confirms
use fluxd_rust.Prelude.{
  ℕ, ◌≡◌, refl, List, [], ◌∷◌, ◌++◌, Bool, true, false, ◌&&◌, not, length, Option, none, some,
  if◌then◌else◌, ◌==◌,
}
use fluxd_rust.Prelude.Int.{ℤ}
use fluxd_rust.Prelude.Result.{Result, ok, err, ◌>>=◌, map_err}
use fluxd_rust.Primitives.Encoding.{
  Encoder, new_encoder, into_inner, ◌▷◌, write_u8, write_varint, write_var_bytes, display,
}
use fluxd_rust.Primitives.OutPoint
use fluxd_rust.Primitives.OutPoint.{OutPoint}
use fluxd_rust.Storage.Batch
use fluxd_rust.Storage.Batch.{
  StoreError, backend, fluxnode, fluxnode_key, WriteBatch, KeyValueStore,
}
use fluxd_rust.Primitives.FluxnodeTransaction.{
  FluxnodeDelegates, FluxnodeConfirmTx, FluxnodeStartV5, FluxnodeStartVariantV6, FluxnodeStartV6,
  FluxnodeTxV5, FluxnodeTxV6, FluxnodeTx, normal, p2sh, start_v5, confirm_v5, start_v6, confirm_v6,
  v5, v6, encode_delegates,
}
use fluxd_rust.Fluxnode.Record
use fluxd_rust.Fluxnode.Record.{FluxnodeRecord, decode_fluxnode_record}

pub record FluxnodeStartMeta : Type 0 where
  pub tier : ℕ
  pub collateral_value : ℤ

unfoldable pub outpoint_key : OutPoint → List ℕ
outpoint_key o = into_inner (new_encoder ▷ OutPoint.consensus_encode o)

-- `start_meta.ok_or_else(..)`
unfoldable pub meta_given : Option FluxnodeStartMeta → Result StoreError FluxnodeStartMeta
meta_given none = err (backend "missing fluxnode start metadata")
meta_given (some meta) = ok meta

-- The heights that a confirmation sets, by its type.
unfoldable pub confirm_heights : ℕ → ℕ → FluxnodeRecord → Result StoreError FluxnodeRecord
confirm_heights update_type height r =
    if update_type == 0
    then ok (record r {
      confirmed_height = if r.confirmed_height == 0 then height else r.confirmed_height;
      last_confirmed_height = height;
    })
    else if update_type == 1
    then (if r.confirmed_height == 0
        then err (backend "fluxnode update confirm before initial confirm")
        else ok (record r { last_confirmed_height = height }))
    else err (backend "fluxnode confirm has invalid update type")

abbrev pub start_record :
    OutPoint
    → List ℕ
    → Option (List ℕ)
    → Option (List ℕ)
    → Option (List ℕ)
    → ℕ
    → FluxnodeStartMeta
    → FluxnodeRecord
start_record collateral operator_key collateral_key p2sh_key delegates height meta = record {
  collateral = collateral;
  tier = meta.tier;
  start_height = height;
  confirmed_height = 0;
  last_confirmed_height = height;
  last_paid_height = 0;
  collateral_value = meta.collateral_value;
  operator_pubkey = operator_key;
  collateral_pubkey = collateral_key;
  p2sh_script = p2sh_key;
  delegates = delegates;
  ip = [];
}

module _ (sha256d : List ℕ → List ℕ) where
  abbrev pub dedupe_key : List ℕ → List ℕ
  dedupe_key bytes = sha256d bytes

  abbrev pub store_key : List ℕ → WriteBatch → WriteBatch × List ℕ
  store_key bytes b = (Batch.put fluxnode_key (dedupe_key bytes) bytes b, dedupe_key bytes)

  unfoldable pub store_optional : Option (List ℕ) → WriteBatch → WriteBatch × Option (List ℕ)
  store_optional none b = (b, none)
  store_optional (some bytes) b = let stored = store_key bytes b in (stored.0, some stored.1)

  unfoldable pub store_fluxnode_start :
      OutPoint
      → List ℕ
      → Option (List ℕ)
      → Option (List ℕ)
      → Option (List ℕ)
      → ℕ
      → FluxnodeStartMeta
      → WriteBatch
      → WriteBatch
  store_fluxnode_start collateral operator_pubkey collateral_pubkey redeem_script delegates height
        meta b =
      let operator_key = store_key operator_pubkey b in
      let collateral_key = store_optional collateral_pubkey operator_key.0 in
      let p2sh_key = store_optional redeem_script collateral_key.0 in
      let r =
        start_record collateral operator_key.1 collateral_key.1 p2sh_key.1 delegates height meta in
      Batch.put fluxnode (outpoint_key collateral) (Record.encode r) p2sh_key.0

  module _ (is_utf8 : List ℕ → Bool) {S : Type 0} (store : KeyValueStore S) where
    unfoldable pub record_of : Option (List ℕ) → Result StoreError (Option FluxnodeRecord)
    record_of none = ok none
    record_of (some bytes) =
        map_err (λ e. backend (display e)) (decode_fluxnode_record is_utf8 bytes) >>= λ r.
        ok (some r)

    unfoldable pub load_fluxnode_record : OutPoint → S → Result StoreError (Option FluxnodeRecord)
    load_fluxnode_record o s = store.get fluxnode (outpoint_key o) s >>= record_of

    unfoldable pub load_key : List ℕ → S → Result StoreError (Option (List ℕ))
    load_key key s = store.get fluxnode_key key s

    unfoldable pub operator_of : S → Option FluxnodeRecord → Result StoreError (Option (List ℕ))
    operator_of s none = ok none
    operator_of s (some r) = load_key r.operator_pubkey s

    unfoldable pub lookup_operator_pubkey : OutPoint → S → Result StoreError (Option (List ℕ))
    lookup_operator_pubkey o s = load_fluxnode_record o s >>= operator_of s

    -- `record.and_then(|record| record.delegates)`
    unfoldable pub delegates_of : Option FluxnodeRecord → Option (List ℕ)
    delegates_of none = none
    delegates_of (some r) = r.delegates

    unfoldable pub delegates_key :
        Bool
        → Option FluxnodeDelegates
        → Option (List ℕ)
        → WriteBatch
        → WriteBatch × Option (List ℕ)
    delegates_key using_delegates none current b = (b, current)
    delegates_key using_delegates (some d) current b =
        if not using_delegates
        then (b, current)
        else if not (d.kind == 1)
        then (b, current)
        else if length d.delegate_starting_keys == 0
        then (b, none)
        else (let stored = store_key (encode_delegates d) b in (stored.0, some stored.1))

    unfoldable pub delegates_key_for_start :
        OutPoint
        → FluxnodeStartV6
        → S
        → WriteBatch
        → Result StoreError (WriteBatch × Option (List ℕ))
    delegates_key_for_start collateral start s b = load_fluxnode_record collateral s >>= λ r.
        ok (delegates_key start.using_delegates start.delegates (delegates_of r) b)

    unfoldable pub confirm_record :
        ℕ → FluxnodeConfirmTx → WriteBatch → Option FluxnodeRecord → Result StoreError WriteBatch
    confirm_record height confirm b none = ok b
    confirm_record height confirm b (some r) =
        confirm_heights confirm.update_type height r >>= λ r'. ok (
          Batch.put fluxnode (outpoint_key confirm.collateral)
            (Record.encode (record r' { ip = confirm.ip })) b)

    unfoldable pub update_fluxnode_confirm :
        ℕ → FluxnodeConfirmTx → S → WriteBatch → Result StoreError WriteBatch
    update_fluxnode_confirm height confirm s b =
        load_fluxnode_record confirm.collateral s >>= confirm_record height confirm b

    unfoldable pub apply_start_v6 :
        ℕ
        → FluxnodeStartMeta
        → FluxnodeStartV6
        → FluxnodeStartVariantV6
        → S
        → WriteBatch
        → Result StoreError WriteBatch
    apply_start_v6 height meta start (normal collateral collateral_pubkey pubkey sig_time sig) s b =
        delegates_key_for_start collateral start s b >>= λ d.
        ok
          (store_fluxnode_start collateral pubkey (some collateral_pubkey) none d.1 height meta d.0)
    apply_start_v6 height meta start (p2sh collateral pubkey redeem_script sig_time sig) s b =
        delegates_key_for_start collateral start s b >>= λ d.
        ok (store_fluxnode_start collateral pubkey none (some redeem_script) d.1 height meta d.0)

    unfoldable pub apply_fluxnode_tx :
        Option FluxnodeTx
        → ℕ
        → Option FluxnodeStartMeta
        → S
        → WriteBatch
        → Result StoreError WriteBatch
    apply_fluxnode_tx none height start_meta s b = ok b
    apply_fluxnode_tx (some (v5 (start_v5 start))) height start_meta s b =
        meta_given start_meta >>= λ meta. load_fluxnode_record start.collateral s >>= λ r. ok (
          store_fluxnode_start start.collateral start.pubkey (some start.collateral_pubkey) none
            (delegates_of r) height meta b)
    apply_fluxnode_tx (some (v6 (start_v6 start))) height start_meta s b =
        meta_given start_meta >>= λ meta. apply_start_v6 height meta start start.variant s b
    apply_fluxnode_tx (some (v5 (confirm_v5 confirm))) height start_meta s b =
        update_fluxnode_confirm height confirm s b
    apply_fluxnode_tx (some (v6 (confirm_v6 confirm))) height start_meta s b =
        update_fluxnode_confirm height confirm s b
