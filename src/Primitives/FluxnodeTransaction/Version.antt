-- ===== src/Primitives/FluxnodeTransaction/Version.antt =====
-- crates/primitives/src/transaction.rs: the bits of a fluxnode start's version.
-- Bit `k` of a number is its quotient by 2 ^ k, modulo two.
use fluxd_rust.Prelude.{
  ℕ, ◌/◌, ◌%◌, ◌^◌, ◌≡◌, Bool, true, false, ◌&&◌, ◌||◌, not, ◌==◌, if◌then◌else◌, arith,
}
use fluxd_rust.Prelude.Int.{ℤ, pos, negsuc, eq_ℤ}
use fluxd_rust.Primitives.Bytes.{as_unsigned}

abbrev pub fluxnode_tx_version : ℕ
fluxnode_tx_version = 5

abbrev pub fluxnode_tx_upgradeable_version : ℕ
fluxnode_tx_upgradeable_version = 6

-- `version & (1 << k) != 0`
abbrev pub has_bit : ℕ → ℤ → Bool
has_bit k version = as_unsigned (2 ^ 32) version / 2 ^ k % 2 == 1

-- FLUXNODE_TX_TYPE_NORMAL_BIT, FLUXNODE_TX_TYPE_P2SH_BIT and FLUXNODE_TX_FEATURE_DELEGATES_BIT
abbrev pub has_normal_bit : ℤ → Bool
has_normal_bit version = has_bit 0 version

abbrev pub has_p2sh_bit : ℤ → Bool
has_p2sh_bit version = has_bit 1 version

unfoldable pub has_flux_tx_delegates_feature : ℤ → Bool
has_flux_tx_delegates_feature version = has_bit 8 version

unfoldable pub has_conflicting_bits : ℤ → Bool
has_conflicting_bits version = has_normal_bit version && has_p2sh_bit version

unfoldable pub is_flux_tx_normal_type : ℤ → Bool → Bool
unfolding has_conflicting_bits
is_flux_tx_normal_type version include_bit_check =
    if include_bit_check
    then (if has_conflicting_bits version
        then false
        else has_normal_bit version || eq_ℤ version (pos 1))
    else eq_ℤ version (pos 1)

unfoldable pub is_flux_tx_p2sh_type : ℤ → Bool → Bool
unfolding has_conflicting_bits
is_flux_tx_p2sh_type version include_bit_check =
    if include_bit_check
    then (if has_conflicting_bits version
        then false
        else has_p2sh_bit version || eq_ℤ version (pos 2))
    else eq_ℤ version (pos 2)

-- The local variables `is_normal` and `is_p2sh` of the encoder, the decoder and the validation.
unfoldable pub is_normal : ℤ → Bool
unfolding is_flux_tx_normal_type
is_normal version = is_flux_tx_normal_type version true && not (has_p2sh_bit version)

unfoldable pub is_p2sh : ℤ → Bool
unfolding is_flux_tx_p2sh_type
is_p2sh version = is_flux_tx_p2sh_type version true

-- The two lowest bits alone decide the type of a start: 1 is normal, 2 is P2SH, and with 0 or 3 it
-- is neither.
pub low_bits_decide :
    (version : ℤ)
    → (is_normal version ≡ (as_unsigned (2 ^ 32) version % 4 == 1))
      × (is_p2sh version ≡ (as_unsigned (2 ^ 32) version % 4 == 2))
unfolding is_normal is_p2sh is_flux_tx_normal_type is_flux_tx_p2sh_type has_conflicting_bits
low_bits_decide (pos n) = (ground arith, ground arith)
low_bits_decide (negsuc n) = (ground arith, ground arith)
