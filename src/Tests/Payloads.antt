-- ===== src/Tests/Payloads.antt =====
-- Fluxnode payloads of crates/fluxnode/src/validation.rs.
use fluxd_rust.Prelude.{
  ℕ, ◌≡◌, ◌↔◌, refl, List, [], ◌∷◌, replicate, length, Bool, true, ◌==◌, some, arith,
}
use fluxd_rust.Prelude.Int.{pos}
use fluxd_rust.Prelude.Result.{ok}
use fluxd_rust.Primitives.FluxnodeTransaction.{FluxnodeTx, v6, start_v6, p2sh}
use fluxd_rust.Primitives.OutPoint.{OutPoint}
use fluxd_rust.Consensus.Params.{TimedPublicKey}
use fluxd_rust.Fluxnode.Validation.{validate_fluxnode_tx, select_active_key}
use fluxd_rust.Fluxnode.Validation.Accepted.{IsPayload, validate_fluxnode_tx_iff}
use fluxd_rust.Fluxnode.Validation.Keys.{IsLatest, select_active_key-IsLatest}

abbrev is_compressed : List ℕ → Bool
is_compressed key = length key == 33

abbrev nowhere : OutPoint
nowhere = record { hash = replicate 32 0; index = 0 }

-- A P2SH start with the feature and one delegate.
abbrev payload : FluxnodeTx
payload = v6 (
    start_v6 (record {
      flux_tx_version = pos 0x102;
      variant = p2sh nowhere (2 ∷ []) (3 ∷ []) 4 (5 ∷ []);
      using_delegates = true;
      delegates =
          some (record { version = 1; kind = 1; delegate_starting_keys = replicate 33 2 ∷ [] });
    }))

payload_accepted : validate_fluxnode_tx is_compressed payload (pos 6) ≡ ok tt
unfolding validate_fluxnode_tx
payload_accepted = refl

validate_fluxnode_tx_iff_example :
    (validate_fluxnode_tx is_compressed payload (pos 6) ≡ ok tt)
    ↔ IsPayload is_compressed payload (pos 6)
validate_fluxnode_tx_iff_example = validate_fluxnode_tx_iff is_compressed payload (pos 6)

abbrev key_from : ℕ → TimedPublicKey
key_from time = record { key = time ∷ []; valid_from = time }

select_active_key-IsLatest_example :
    (key : TimedPublicKey) × (select_active_key 25
        (key_from 0 ∷ key_from 10 ∷ key_from 20 ∷ key_from 30 ∷ [])
      ≡ some key)
    × IsLatest 25 (key_from 0 ∷ key_from 10 ∷ key_from 20 ∷ key_from 30 ∷ []) key
select_active_key-IsLatest_example =
    select_active_key-IsLatest 25 (key_from 0) (key_from 10 ∷ key_from 20 ∷ key_from 30 ∷ [])
      (omega arith)
