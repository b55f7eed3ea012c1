-- ===== src/Tests/Cache.antt =====
-- A fluxnode of cache.rs in the store in memory, with padded bytes in place of SHA-256.
use fluxd_rust.Prelude.{
  ℕ, ◌≡◌, inr, refl, ap, List, [], ◌∷◌, ◌++◌, length, length-take, length-append, length-replicate,
  get_or, take, replicate, Bool, true, some, none, arith,
}
use fluxd_rust.Prelude.Int.{pos}
use fluxd_rust.Prelude.Result.{ok, err}
use fluxd_rust.Storage.Batch.{WriteBatch, new_batch, backend}
use fluxd_rust.Storage.Memory.{MemoryStore, new_store, memory_store, find}
use fluxd_rust.Storage.Memory.Lookup.{memory_store-StoreLaws}
use fluxd_rust.Fluxnode.Record.{FluxnodeRecord}
use fluxd_rust.Fluxnode.Record.Formats.{IsFluxnodeRecord}
use fluxd_rust.Primitives.FluxnodeTransaction.{
  FluxnodeStartV5, FluxnodeConfirmTx, v5, start_v5, confirm_v6, v6,
}
use fluxd_rust.Fluxnode.Cache.{
  FluxnodeStartMeta, start_record, store_fluxnode_start, confirm_heights, meta_given, record_of,
  load_fluxnode_record, lookup_operator_pubkey, apply_fluxnode_tx,
}
use fluxd_rust.Fluxnode.Cache.Started.{load-started}
use fluxd_rust.Fluxnode.Cache.Given.{of_v5}
use fluxd_rust.Fluxnode.Cache.Starts.{apply_start-lookup}
use fluxd_rust.Fluxnode.Cache.Confirms.{Outcome, apply_confirm-Outcome}
use fluxd_rust.Tests.Records.{outpoint, outpoint-IsOutPoint}

abbrev padded : List ℕ → List ℕ
padded bytes = take 32 (bytes ++ replicate 32 0)

length-padded : (bytes : List ℕ) → length (padded bytes) ≡ 32
length-padded bytes = omega (
  arith,
  length-take 32 (bytes ++ replicate 32 0),
  length-append bytes (replicate 32 0),
  length-replicate {A = ℕ} 32 0,
)

abbrev any_text : List ℕ → Bool
any_text bytes = true

abbrev start_tx : FluxnodeStartV5
start_tx = record {
  collateral = outpoint;
  collateral_pubkey = 2 ∷ 2 ∷ [];
  pubkey = 3 ∷ 3 ∷ [];
  sig_time = 0;
  sig = [];
}

abbrev meta : FluxnodeStartMeta
meta = record { tier = 1; collateral_value = pos 1_000 }

abbrev started_record : FluxnodeRecord
started_record =
    start_record outpoint (padded (3 ∷ 3 ∷ [])) (some (padded (2 ∷ 2 ∷ []))) none none 100 meta

start_without_meta :
    apply_fluxnode_tx padded any_text memory_store
      (some (v5 (start_v5 start_tx)))
      100
      none
      new_store
      new_batch
    ≡ err (backend "missing fluxnode start metadata")
unfolding apply_fluxnode_tx meta_given
start_without_meta = refl

apply_start-lookup_example :
    (b' : WriteBatch) × (apply_fluxnode_tx padded any_text memory_store
        (some (v5 (start_v5 start_tx)))
        100
        (some meta)
        new_store
        new_batch
      ≡ ok b')
    × (lookup_operator_pubkey padded any_text memory_store outpoint
          (memory_store.write_batch b' new_store).0
        ≡ ok (some (3 ∷ 3 ∷ [])))
    × (load_fluxnode_record padded any_text memory_store outpoint
          (memory_store.write_batch b' new_store).0
        ≡ ok (some started_record))
unfolding memory_store load_fluxnode_record record_of find
apply_start-lookup_example =
    apply_start-lookup padded any_text memory_store memory_store-StoreLaws new_store
      (of_v5 start_tx) 100 meta none new_batch length-padded
      (inr (λ e. absurd (omega (arith, ap (λ l. get_or l 0 0) e)))) tt refl outpoint-IsOutPoint
      (omega arith) (omega arith) refl tt

abbrev started_store : MemoryStore
started_store =
    (memory_store.write_batch
      (store_fluxnode_start padded outpoint (3 ∷ 3 ∷ []) (some (2 ∷ 2 ∷ [])) none none 100 meta
        new_batch)
      new_store).0

abbrev confirm_tx : ℕ → FluxnodeConfirmTx
confirm_tx update_type = record {
  collateral = outpoint;
  sig_time = 0;
  benchmark_tier = 1;
  benchmark_sig_time = 0;
  update_type = update_type;
  ip = 49 ∷ 46 ∷ [];
  sig = [];
  benchmark_sig = [];
}

-- An update needs a confirmation before it.
update_before_confirm :
    confirm_heights 1 105 started_record
    ≡ err (backend "fluxnode update confirm before initial confirm")
unfolding confirm_heights
update_before_confirm = refl

started_record-IsFluxnodeRecord : IsFluxnodeRecord any_text started_record
started_record-IsFluxnodeRecord = record {
  collateral_sizes = outpoint-IsOutPoint;
  start_height_range = omega arith;
  confirmed_height_range = omega arith;
  last_confirmed_height_range = omega arith;
  last_paid_height_range = omega arith;
  collateral_value_range = omega arith;
  operator_pubkey_size = refl;
  collateral_pubkey_size = refl;
  p2sh_script_size = tt;
  delegates_size = tt;
  ip_size = omega arith;
  ip_utf8 = refl;
}

apply_confirm-Outcome_example :
    Outcome memory_store memory_store-StoreLaws started_store padded any_text
      (confirm_tx 0)
      105
      started_record
      (apply_fluxnode_tx padded any_text memory_store
        (some (v6 (confirm_v6 (confirm_tx 0))))
        105
        none
        started_store
        new_batch)
apply_confirm-Outcome_example =
    apply_confirm-Outcome memory_store memory_store-StoreLaws started_store padded any_text
      (v6 (confirm_v6 (confirm_tx 0))) (confirm_tx 0) 105 none started_record new_batch (inr refl)
      (load-started memory_store memory_store-StoreLaws new_store padded any_text outpoint
        (3 ∷ 3 ∷ []) (some (2 ∷ 2 ∷ [])) none none 100 meta new_batch
        started_record-IsFluxnodeRecord)
      started_record-IsFluxnodeRecord (omega arith) (omega arith) refl
