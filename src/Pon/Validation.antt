-- ===== src/Pon/Validation.antt =====
-- crates/pon/src/validation.rs: the checks of a proof-of-node header.
-- The functions of secp256k1 are arguments, as in the module of the emergency blocks.
pub mod Accepted
use fluxd_rust.Prelude.{
  ℕ, zero, ◌^◌, ◌≤◌, ◌<◌, ◌≡◌, ◌⊎◌, ◌↔◌, refl, List, [], length, replicate, ◌∷◌, ◌++◌, is_nil, Bool,
  true, false, not, ◌&&◌, ◌||◌, Option, none, some, ltb, ◌==◌, if◌then◌else◌, inl, inr, Bool-cases,
  arith,
}
use fluxd_rust.Prelude.Int.{ℤ, pos, leb_ℤ, ltb_ℤ, ◌+ℤ◌}
use fluxd_rust.Prelude.Result.{
  Result, ok, err, ◌>>◌, ◌>>=◌, fail_if, fail_if-eq-ok, >>=-eq-ok, map_err,
}
use fluxd_rust.Primitives.Bytes.{as_signed, as_unsigned, from_le_bytes}
use fluxd_rust.Primitives.Block.{BlockHeader, hash}
use fluxd_rust.Primitives.OutPoint.{null}
use fluxd_rust.Primitives.OutPoint.Same.{same_outpoint}
use fluxd_rust.Storage.Memory.{same_bytes}
use fluxd_rust.Consensus.Params.{ConsensusParams, Network, mainnet, testnet, regtest, is_regtest}
use fluxd_rust.Consensus.Upgrades.{pon}
use fluxd_rust.Pow.Compact.{compact_to_u256}
use fluxd_rust.Pon.Slot.{get_slot_number, pon_hash}
use fluxd_rust.Pon.Emergency.{
  PonError, invalid_header, is_emergency_block, is_emergency_allowed, validate_emergency_signatures,
}

-- The heights of the first window after the activation have the start limit; a height that is not
-- positive has the larger limit. The window is cast to an i32, in whose range its sum with the height
-- of the activation is taken to be.
unfoldable pub max_target : ℤ → ConsensusParams → ℕ
unfolding ◌+ℤ◌
max_target height params =
    let limit = from_le_bytes params.pon_limit in
    let start = from_le_bytes params.pon_start_limit in
    let window = as_signed (2 ^ 32) (as_unsigned (2 ^ 32) params.pon_difficulty_window) in
    let window_end = (params.upgrades pon).activation_height +ℤ window in
    if ltb_ℤ (pos 0) height
    then (if leb_ℤ window_end height then limit else start)
    else (if ltb start limit then limit else start)

-- The tests of a target that the header's bits stand for.
unfoldable pub check_target : List ℕ → ℕ → ℕ → Result PonError (Unit {0})
check_target hash target limit = do
  fail_if (target == 0) (invalid_header "pon target is zero")
  fail_if (ltb limit target) (invalid_header "pon target above limit")
  fail_if (ltb target (from_le_bytes hash)) (invalid_header "pon hash does not meet target")

unfoldable pub check_proof_of_node : List ℕ → ℕ → ℤ → ConsensusParams → Result PonError (Unit {0})
unfolding compact_to_u256 check_target max_target
check_proof_of_node hash bits height params =
    if is_regtest params.network
    then ok tt
    else (map_err (λ _. invalid_header "invalid pon target") (compact_to_u256 bits) >>= λ target.
        check_target hash target (max_target height params))

-- The fixed hash of the bypass: the bytes of the hexadecimal text, in the reversed order that
-- `hash256_from_hex` gives.
abbrev pub bypass_hash : List ℕ
bypass_hash = replicate 25 0 ++ (0x44 ∷ 0x4f ∷ 0x4e ∷ 0x54 ∷ 0x53 ∷ 0x45 ∷ 0x54 ∷ [])

abbrev allows_bypass : Network → Bool
allows_bypass mainnet = false
allows_bypass testnet = true
allows_bypass regtest = true

unfoldable pub is_testnet_bypass : BlockHeader → ConsensusParams → Bool
unfolding same_bytes
is_testnet_bypass header params =
    allows_bypass params.network
    && same_bytes header.nodes_collateral.hash bypass_hash
    && header.nodes_collateral.index == 0

module _ {PublicKey Signature : Type 0} (parse_key : List ℕ → Option PublicKey)
    (parse_sig : List ℕ → Option Signature) (verify : List ℕ → Signature → PublicKey → Bool)
    (sha256d trim : List ℕ → List ℕ) where
  unfoldable pub validate_pon_header :
      BlockHeader → ℤ → ConsensusParams → Result PonError (Unit {0})
  unfolding same_bytes null is_emergency_block is_emergency_allowed validate_emergency_signatures
      get_slot_number pon_hash check_proof_of_node
  validate_pon_header header height params =
      fail_if (same_outpoint header.nodes_collateral null)
        (invalid_header "pon header missing collateral outpoint")
      >> (fail_if (is_nil header.block_sig) (invalid_header "pon header missing signature")
          >> (if is_emergency_block header params
              then (fail_if (not (is_emergency_allowed height params))
                    (invalid_header "emergency block not allowed")
                  >> validate_emergency_signatures parse_key parse_sig verify sha256d trim header
                      params)
              else let slot = get_slot_number (pos header.time) params.genesis_time params in
                let hash = pon_hash sha256d header.nodes_collateral header.prev_block slot in
                check_proof_of_node hash header.bits height params))

  verify_signature : List ℕ → Option Signature → Option PublicKey → Result PonError (Unit {0})
  verify_signature digest sig none = err (invalid_header "invalid pubkey")
  verify_signature digest none (some key) = err (invalid_header "invalid pon signature")
  verify_signature digest (some sig) (some key) =
      fail_if (not (length digest == 32)) (invalid_header "invalid pon hash")
      >> fail_if (not (verify digest sig key)) (invalid_header "pon signature verification failed")

  unfoldable pub validate_pon_signature :
      BlockHeader → ConsensusParams → List ℕ → Result PonError (Unit {0})
  unfolding is_emergency_block is_testnet_bypass verify_signature hash
  validate_pon_signature header params pubkey_bytes =
      if is_emergency_block header params || is_testnet_bypass header params
      then ok tt
      else (fail_if (is_nil header.block_sig) (invalid_header "pon header missing signature")
          >> verify_signature (hash sha256d header) (parse_sig header.block_sig)
              (parse_key pubkey_bytes))
