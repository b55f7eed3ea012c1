-- ===== src/Fluxnode/Cache/Given.antt =====
-- cache.rs: what a start transaction of either version gives to the record of its fluxnode.
use fluxd_rust.Prelude.{
  ℕ, ◌≡◌, ◌⊎◌, ◌∙◌, ap, List, [], is_nil, Bool, true, false, length, Option, none, some,
  if◌then◌else◌, ◌==◌, inl, inr, Bool-cases,
}
use fluxd_rust.Primitives.OutPoint.{OutPoint}
use fluxd_rust.Fluxnode.Record.{FluxnodeRecord}
use fluxd_rust.Fluxnode.Record.Formats.{IsKey}
use fluxd_rust.Primitives.FluxnodeTransaction.{
  FluxnodeDelegates, FluxnodeStartV5, FluxnodeStartV6, FluxnodeStartVariantV6, normal, p2sh,
  FluxnodeTx, v5, v6, start_v5, start_v6, encode_delegates,
}
use fluxd_rust.Fluxnode.Cache.{FluxnodeStartMeta}

-- The starts of both versions.
pub data Start : Type 0 where
  of_v5 : FluxnodeStartV5 → Start
  of_v6 : FluxnodeStartV6 → Start

abbrev pub payload : Start → FluxnodeTx
payload (of_v5 start) = v5 (start_v5 start)
payload (of_v6 start) = v6 (start_v6 start)

-- The outpoint and the keys that a start names.
pub record StartKeys : Type 0 where
  pub collateral : OutPoint
  pub operator : List ℕ
  pub collateral_pubkey : Option (List ℕ)
  pub redeem_script : Option (List ℕ)

abbrev pub variant_keys : FluxnodeStartVariantV6 → StartKeys
variant_keys (normal collateral collateral_pubkey pubkey sig_time sig) = record {
  collateral = collateral;
  operator = pubkey;
  collateral_pubkey = some collateral_pubkey;
  redeem_script = none;
}
variant_keys (p2sh collateral pubkey redeem_script sig_time sig) = record {
  collateral = collateral;
  operator = pubkey;
  collateral_pubkey = none;
  redeem_script = some redeem_script;
}

abbrev pub start_keys : Start → StartKeys
start_keys (of_v5 start) = record {
  collateral = start.collateral;
  operator = start.pubkey;
  collateral_pubkey = some start.collateral_pubkey;
  redeem_script = none;
}
start_keys (of_v6 start) = variant_keys start.variant

abbrev pub delegates_held : Option FluxnodeRecord → Option (List ℕ)
delegates_held none = none
delegates_held (some r) = r.delegates

module _ (sha256d : List ℕ → List ℕ) where
  abbrev pub hashed : Option (List ℕ) → Option (List ℕ)
  hashed none = none
  hashed (some bytes) = some (sha256d bytes)

  -- Delegates in use that are an update take the place of those held before: by the hash of their
  -- encoding, or as none where the update has no keys.
  abbrev pub updated : Bool → Option FluxnodeDelegates → Option (List ℕ) → Option (List ℕ)
  updated false delegates held = held
  updated true none held = held
  updated true (some d) held =
      if d.kind == 1
      then (if is_nil d.delegate_starting_keys then none else some (sha256d (encode_delegates d)))
      else held

  abbrev pub delegates_after : Start → Option (List ℕ) → Option (List ℕ)
  delegates_after (of_v5 start) held = held
  delegates_after (of_v6 start) held = updated start.using_delegates start.delegates held

  -- Another key is the operator's, or has another hash.
  abbrev pub Apart : List ℕ → Option (List ℕ) → Type 0
  Apart operator none = Unit {0}
  Apart operator (some other) = (other ≡ operator) ⊎ (¬ (sha256d operator ≡ sha256d other))

  -- The record of a start.
  abbrev pub started_record : StartKeys → Option (List ℕ) → ℕ → FluxnodeStartMeta → FluxnodeRecord
  started_record k delegates height meta = record {
    collateral = k.collateral;
    tier = meta.tier;
    start_height = height;
    confirmed_height = 0;
    last_confirmed_height = height;
    last_paid_height = 0;
    collateral_value = meta.collateral_value;
    operator_pubkey = sha256d k.operator;
    collateral_pubkey = hashed k.collateral_pubkey;
    p2sh_script = hashed k.redeem_script;
    delegates = delegates;
    ip = [];
  }

  pub same_key :
      (operator : List ℕ) (other : Option (List ℕ))
      → Apart operator other
      → (v : List ℕ) → other ≡ some v
      → sha256d operator ≡ sha256d v
      → v ≡ operator
  same_key operator none a v e h = cc
  same_key operator (some w) (inl same) v e h = cc
  same_key operator (some w) (inr other) v e h = absurd (other (h ∙ ap sha256d (some_same e)))
    where
      some_same : some w ≡ some v → v ≡ w
      some_same e = cc

  pub IsKey-hashed :
      ((bytes : List ℕ) → length (sha256d bytes) ≡ 32)
      → (key : Option (List ℕ)) → IsKey (hashed key)
  IsKey-hashed size none = tt
  IsKey-hashed size (some key) = size key

  pub IsKey-delegates_after :
      ((bytes : List ℕ) → length (sha256d bytes) ≡ 32)
      → (start : Start) (held : Option (List ℕ)) → IsKey held
      → IsKey (delegates_after start held)
  IsKey-delegates_after size (of_v5 start) held key = key
  IsKey-delegates_after size (of_v6 start) held key =
      by_update start.using_delegates start.delegates
    where
      by_update :
          (used : Bool) (delegates : Option FluxnodeDelegates) → IsKey (updated used delegates held)
      by_update false delegates = key
      by_update true none = key
      by_update true (some d) = elim (Bool-cases (d.kind == 1)) [
        | inl update ↦ rw update (elim (Bool-cases (is_nil d.delegate_starting_keys)) [
          | inl empty ↦ rw empty tt
          | inr keys ↦ rw keys (size (encode_delegates d))
        ])
        | inr other ↦ rw other key
      ]
