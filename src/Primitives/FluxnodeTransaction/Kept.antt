-- ===== src/Primitives/FluxnodeTransaction/Kept.antt =====
-- What the encoding of a fluxnode payload in transaction.rs keeps of it, the ranges of the fields,
-- and the bytes of each part.
use fluxd_rust.Prelude.{
  ℕ, ◌^◌, ◌≤◌, ◌<◌, ◌≡◌, Bool, true, false, ◌&&◌, List, [], ◌∷◌, ◌++◌, length, Option, none, some,
  if◌then◌else◌, ◌==◌,
}
use fluxd_rust.Primitives.Bytes.{to_le_bytes, IsSigned}
use fluxd_rust.Primitives.Encoding.{max_compact_size}
use fluxd_rust.Primitives.Encoding.Writes.{var_bytes}
use fluxd_rust.Primitives.Encoding.Reads.{All}
use fluxd_rust.Primitives.Encoding.Vectors.{vec_bytes}
use fluxd_rust.Primitives.OutPoint
use fluxd_rust.Primitives.OutPoint.{OutPoint, IsOutPoint}
use fluxd_rust.Primitives.FluxnodeTransaction.{
  FluxnodeDelegates, FluxnodeConfirmTx, FluxnodeStartV5, FluxnodeStartVariantV6, normal, p2sh,
  FluxnodeStartV6, FluxnodeTxV5, start_v5, confirm_v5, FluxnodeTxV6, start_v6, confirm_v6,
}
use fluxd_rust.Primitives.FluxnodeTransaction.Version.{has_flux_tx_delegates_feature}

abbrev pub IsSized : List ℕ → Type 0
IsSized bs = length bs ≤ max_compact_size

abbrev pub kept_sig : Bool → List ℕ → List ℕ
kept_sig true sig = sig
kept_sig false sig = []

abbrev pub sig_bytes : Bool → List ℕ → List ℕ
sig_bytes true sig = var_bytes sig
sig_bytes false sig = []

-- The keys are written for an update of the first version alone.
abbrev pub has_keys : FluxnodeDelegates → Bool
has_keys d = d.version == 1 && d.kind == 1

abbrev pub kept_delegates : FluxnodeDelegates → FluxnodeDelegates
kept_delegates d = record {
  version = d.version;
  kind = d.kind;
  delegate_starting_keys = if has_keys d then d.delegate_starting_keys else [];
}

pub record IsDelegates (d : FluxnodeDelegates) : Type 0 where
  pub keys_count : length d.delegate_starting_keys ≤ max_compact_size
  pub keys_sizes : All IsSized d.delegate_starting_keys

abbrev pub delegates_bytes : FluxnodeDelegates → List ℕ
delegates_bytes d =
    (d.version ∷ [])
    ++ ((d.kind ∷ []) ++ (if has_keys d then vec_bytes var_bytes d.delegate_starting_keys else []))

abbrev pub kept_start_v5 : Bool → FluxnodeStartV5 → FluxnodeStartV5
kept_start_v5 include_signatures start = record {
  collateral = start.collateral;
  collateral_pubkey = start.collateral_pubkey;
  pubkey = start.pubkey;
  sig_time = start.sig_time;
  sig = kept_sig include_signatures start.sig;
}

pub record IsStartV5 (start : FluxnodeStartV5) : Type 0 where
  pub collateral_sizes : IsOutPoint start.collateral
  pub collateral_pubkey_size : IsSized start.collateral_pubkey
  pub pubkey_size : IsSized start.pubkey
  pub sig_time_range : start.sig_time < 2 ^ 32
  pub sig_size : IsSized start.sig

-- The outpoint, two keys or scripts, the time and the signature.
abbrev pub start_bytes : Bool → OutPoint → List ℕ → List ℕ → ℕ → List ℕ → List ℕ
start_bytes include_signatures collateral first second sig_time sig =
    OutPoint.bytes collateral
    ++ (var_bytes first
        ++ (var_bytes second ++ (to_le_bytes 4 sig_time ++ sig_bytes include_signatures sig)))

abbrev pub start_v5_bytes : Bool → FluxnodeStartV5 → List ℕ
start_v5_bytes include_signatures start =
    start_bytes include_signatures start.collateral start.collateral_pubkey start.pubkey
      start.sig_time start.sig

abbrev pub kept_confirm : Bool → FluxnodeConfirmTx → FluxnodeConfirmTx
kept_confirm include_signatures confirm = record {
  collateral = confirm.collateral;
  sig_time = confirm.sig_time;
  benchmark_tier = confirm.benchmark_tier;
  benchmark_sig_time = confirm.benchmark_sig_time;
  update_type = confirm.update_type;
  ip = confirm.ip;
  sig = kept_sig include_signatures confirm.sig;
  benchmark_sig = kept_sig include_signatures confirm.benchmark_sig;
}

pub record IsConfirm (is_utf8 : List ℕ → Bool) (confirm : FluxnodeConfirmTx) : Type 0 where
  pub collateral_sizes : IsOutPoint confirm.collateral
  pub sig_time_range : confirm.sig_time < 2 ^ 32
  pub benchmark_sig_time_range : confirm.benchmark_sig_time < 2 ^ 32
  pub ip_size : IsSized confirm.ip
  pub ip_utf8 : is_utf8 confirm.ip ≡ true
  pub sig_size : IsSized confirm.sig
  pub benchmark_sig_size : IsSized confirm.benchmark_sig

abbrev pub confirm_bytes : Bool → FluxnodeConfirmTx → List ℕ
confirm_bytes include_signatures confirm =
    OutPoint.bytes confirm.collateral
    ++ (to_le_bytes 4 confirm.sig_time
        ++ ((confirm.benchmark_tier ∷ [])
            ++ (to_le_bytes 4 confirm.benchmark_sig_time
                ++ ((confirm.update_type ∷ [])
                    ++ (var_bytes confirm.ip
                        ++ (sig_bytes include_signatures confirm.sig
                            ++ sig_bytes include_signatures confirm.benchmark_sig))))))

abbrev pub kept_variant : Bool → FluxnodeStartVariantV6 → FluxnodeStartVariantV6
kept_variant include_signatures (normal collateral collateral_pubkey pubkey sig_time sig) =
    normal collateral collateral_pubkey pubkey sig_time (kept_sig include_signatures sig)
kept_variant include_signatures (p2sh collateral pubkey redeem_script sig_time sig) =
    p2sh collateral pubkey redeem_script sig_time (kept_sig include_signatures sig)

abbrev pub variant_bytes : Bool → FluxnodeStartVariantV6 → List ℕ
variant_bytes include_signatures (normal collateral collateral_pubkey pubkey sig_time sig) =
    start_bytes include_signatures collateral collateral_pubkey pubkey sig_time sig
variant_bytes include_signatures (p2sh collateral pubkey redeem_script sig_time sig) =
    start_bytes include_signatures collateral pubkey redeem_script sig_time sig

abbrev pub IsVariant : FluxnodeStartVariantV6 → Type 0
IsVariant (normal collateral collateral_pubkey pubkey sig_time sig) =
    IsOutPoint collateral
    × IsSized collateral_pubkey
    × IsSized pubkey
    × (sig_time < 2 ^ 32)
    × IsSized sig
IsVariant (p2sh collateral pubkey redeem_script sig_time sig) =
    IsOutPoint collateral
    × IsSized pubkey
    × IsSized redeem_script
    × (sig_time < 2 ^ 32)
    × IsSized sig

-- Whether delegates are in use is kept where the version has the feature, and they themselves where
-- they are in use.
abbrev pub kept_option : Bool → Option FluxnodeDelegates → Option FluxnodeDelegates
kept_option true (some d) = some (kept_delegates d)
kept_option true none = none
kept_option false delegates = none

abbrev pub uses_delegates : FluxnodeStartV6 → Bool
uses_delegates start = has_flux_tx_delegates_feature start.flux_tx_version && start.using_delegates

abbrev pub kept_start_v6 : Bool → FluxnodeStartV6 → FluxnodeStartV6
kept_start_v6 include_signatures start = record {
  flux_tx_version = start.flux_tx_version;
  variant = kept_variant include_signatures start.variant;
  using_delegates = uses_delegates start;
  delegates = kept_option (uses_delegates start) start.delegates;
}

abbrev pub IsOptionDelegates : Option FluxnodeDelegates → Type 0
IsOptionDelegates none = Unit {0}
IsOptionDelegates (some d) = IsDelegates d

pub record IsStartV6 (start : FluxnodeStartV6) : Type 0 where
  pub flux_tx_version_range : IsSigned (2 ^ 32) start.flux_tx_version
  pub variant_sizes : IsVariant start.variant
  pub delegates_sizes : IsOptionDelegates start.delegates

abbrev pub kept_v5 : Bool → FluxnodeTxV5 → FluxnodeTxV5
kept_v5 include_signatures (start_v5 start) = start_v5 (kept_start_v5 include_signatures start)
kept_v5 include_signatures (confirm_v5 confirm) =
    confirm_v5 (kept_confirm include_signatures confirm)

abbrev pub kept_v6 : Bool → FluxnodeTxV6 → FluxnodeTxV6
kept_v6 include_signatures (start_v6 start) = start_v6 (kept_start_v6 include_signatures start)
kept_v6 include_signatures (confirm_v6 confirm) =
    confirm_v6 (kept_confirm include_signatures confirm)

abbrev pub IsFluxnodeTxV5 : (List ℕ → Bool) → FluxnodeTxV5 → Type 0
IsFluxnodeTxV5 is_utf8 (start_v5 start) = IsStartV5 start
IsFluxnodeTxV5 is_utf8 (confirm_v5 confirm) = IsConfirm is_utf8 confirm

abbrev pub IsFluxnodeTxV6 : (List ℕ → Bool) → FluxnodeTxV6 → Type 0
IsFluxnodeTxV6 is_utf8 (start_v6 start) = IsStartV6 start
IsFluxnodeTxV6 is_utf8 (confirm_v6 confirm) = IsConfirm is_utf8 confirm
