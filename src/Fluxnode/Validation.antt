-- ===== src/Fluxnode/Validation.antt =====
-- crates/fluxnode/src/validation.rs: the payload of a fluxnode transaction, and what a height
-- enforces. `is_key` is `PublicKey::from_slice(_).is_ok()` of the third-party crate secp256k1.
pub mod Accepted
pub mod Keys
use Prim.Native.String.{String}
use fluxd_rust.Prelude.{
  ℕ, List, [], ◌∷◌, ◌++◌, length, is_nil, Bool, true, false, not, ◌&&◌, ◌||◌, Option, none, some,
  ltb, leb, ◌==◌, if◌then◌else◌,
}
use fluxd_rust.Prelude.Int.{ℤ, pos, eq_ℤ, leb_ℤ, ltb_ℤ, ◌+ℤ◌}
use fluxd_rust.Prelude.Result.{Result, ok, err, ◌>>◌, fail_if}
use fluxd_rust.Consensus.Params.{FluxnodeParams, TimedPublicKey}
use fluxd_rust.Primitives.FluxnodeTransaction.{
  FluxnodeDelegates, FluxnodeStartV6, FluxnodeTxV5, start_v5, confirm_v5, FluxnodeTxV6, start_v6,
  confirm_v6, FluxnodeTx, v5, v6,
}
use fluxd_rust.Primitives.FluxnodeTransaction.Version.{
  is_normal, is_p2sh, has_flux_tx_delegates_feature,
}

pub data FluxnodeTier : Type 0 where
  cumulus nimbus stratus : FluxnodeTier

-- `if enforced { tiers.push(tier); }`
abbrev push_if : Bool → FluxnodeTier → List FluxnodeTier
push_if enforced tier = if enforced then tier ∷ [] else []

unfoldable pub enforced_tiers : ℤ → FluxnodeParams → List FluxnodeTier
enforced_tiers height params =
    push_if (leb_ℤ params.cumulus_transition_end height) cumulus
    ++ (push_if (leb_ℤ params.nimbus_transition_end height) nimbus
        ++ push_if (leb_ℤ params.stratus_transition_end height) stratus)

unfoldable pub should_enforce_new_collateral : ℤ → FluxnodeParams → Bool
unfolding ◌+ℤ◌
should_enforce_new_collateral height params =
    leb_ℤ params.cumulus_transition_start height
    && ltb_ℤ height (params.stratus_transition_end +ℤ pos 10)

unfoldable pub p2sh_keys : ℕ → List TimedPublicKey → List TimedPublicKey
p2sh_keys time [] = []
p2sh_keys time (key ∷ keys) =
    let later = p2sh_keys time keys in if leb key.valid_from time then key ∷ later else later

unfoldable pub p2sh_keys_at : ℕ → FluxnodeParams → List TimedPublicKey
unfolding p2sh_keys
p2sh_keys_at time params = p2sh_keys time params.p2sh_public_keys

-- `if key.valid_from <= time && key.valid_from >= current.valid_from { current = *key; }`
unfoldable pub newer : ℕ → TimedPublicKey → TimedPublicKey → TimedPublicKey
newer time current key =
    if leb key.valid_from time && leb current.valid_from key.valid_from then key else current

-- The loop with `current`.
unfoldable pub latest : ℕ → TimedPublicKey → List TimedPublicKey → TimedPublicKey
unfolding newer
latest time current [] = current
latest time current (key ∷ keys) = latest time (newer time current key) keys

-- An empty list panics.
unfoldable pub select_active_key : ℕ → List TimedPublicKey → Option TimedPublicKey
unfolding latest
select_active_key time [] = none
select_active_key time (first ∷ rest) = some (latest time first (first ∷ rest))

unfoldable pub benchmarking_key_at : ℕ → FluxnodeParams → Option TimedPublicKey
unfolding select_active_key
benchmarking_key_at time params = select_active_key time params.benchmarking_public_keys

unfoldable pub validate_fluxnode_v5 : FluxnodeTxV5 → ℤ → Result String (Unit {0})
validate_fluxnode_v5 (start_v5 start) version =
    fail_if (not (eq_ℤ version (pos 5))) "fluxnode v5 payload used with non-v5 transaction"
    >> fail_if (is_nil start.collateral_pubkey || is_nil start.pubkey)
        "fluxnode v5 start missing pubkeys"
validate_fluxnode_v5 (confirm_v5 confirm) version =
    fail_if (not (eq_ℤ version (pos 5))) "fluxnode v5 payload used with non-v5 transaction"

module _ (is_key : List ℕ → Bool) where
  -- `for pubkey in &delegates.delegate_starting_keys { .. }`
  unfoldable pub check_keys : List (List ℕ) → Result String (Unit {0})
  check_keys [] = ok tt
  check_keys (key ∷ keys) = do
    fail_if (not (length key == 33)) "fluxnode v6 delegate pubkey must be compressed"
    fail_if (not (is_key key)) "fluxnode v6 delegate pubkey invalid"
    check_keys keys

  unfoldable pub check_delegates : FluxnodeDelegates → Result String (Unit {0})
  unfolding check_keys
  check_delegates d = do
    fail_if (not (d.kind == 1) && not (d.kind == 2)) "fluxnode v6 delegates has invalid type"
    fail_if (ltb 4 (length d.delegate_starting_keys)) "fluxnode v6 delegates has too many keys"
    check_keys d.delegate_starting_keys

  -- The use of delegates, with the version's feature and without it.
  unfoldable pub check_feature : Bool → Bool → Option FluxnodeDelegates → Result String (Unit {0})
  unfolding check_delegates
  check_feature true false delegates = err "fluxnode v6 delegates feature set without flag"
  check_feature true true none = err "fluxnode v6 delegates flag set without payload"
  check_feature true true (some d) = check_delegates d
  check_feature false true delegates = err "fluxnode v6 delegates present without feature"
  check_feature false false (some d) = err "fluxnode v6 delegates present without feature"
  check_feature false false none = ok tt

  unfoldable pub check_start_v6 : FluxnodeStartV6 → Result String (Unit {0})
  unfolding is_normal is_p2sh has_flux_tx_delegates_feature check_feature
  check_start_v6 start =
      fail_if (not (is_normal start.flux_tx_version || is_p2sh start.flux_tx_version))
        "fluxnode v6 start has invalid version bits"
      >> check_feature (has_flux_tx_delegates_feature start.flux_tx_version) start.using_delegates
          start.delegates

  unfoldable pub validate_fluxnode_v6 : FluxnodeTxV6 → ℤ → Result String (Unit {0})
  unfolding check_start_v6
  validate_fluxnode_v6 (start_v6 start) version =
      fail_if (not (eq_ℤ version (pos 6))) "fluxnode v6 payload used with non-v6 transaction"
      >> check_start_v6 start
  validate_fluxnode_v6 (confirm_v6 confirm) version =
      fail_if (not (eq_ℤ version (pos 6))) "fluxnode v6 payload used with non-v6 transaction"

  unfoldable pub validate_fluxnode_tx : FluxnodeTx → ℤ → Result String (Unit {0})
  unfolding validate_fluxnode_v5 validate_fluxnode_v6
  validate_fluxnode_tx (v5 payload) version = validate_fluxnode_v5 payload version
  validate_fluxnode_tx (v6 payload) version = validate_fluxnode_v6 payload version
