-- ===== src/Pon/Validation/Accepted.antt =====
-- What an accepted proof-of-node header of crates/pon/src/validation.rs shows.
use fluxd_rust.Prelude.{
  ℕ, ◌≤◌, ◌<◌, ◌≡◌, ◌⊎◌, ◌↔◌, refl, List, is_nil, Bool, true, false, not, Option, inl, inr,
  Bool-cases, arith,
}
use fluxd_rust.Prelude.Int.{ℤ, pos}
use fluxd_rust.Prelude.Result.{Result, ok, err, fail_if, fail_if-eq-ok, >>=-eq-ok, map_err, ◌>>=◌}
use fluxd_rust.Primitives.Bytes.{from_le_bytes}
use fluxd_rust.Primitives.Block.{BlockHeader}
use fluxd_rust.Primitives.OutPoint.{null}
use fluxd_rust.Primitives.OutPoint.Same.{same_outpoint}
use fluxd_rust.Consensus.Params.{ConsensusParams, is_regtest}
use fluxd_rust.Pow.Compact.{compact_to_u256, CompactError}
use fluxd_rust.Pon.Slot.{get_slot_number, pon_hash}
use fluxd_rust.Pon.Emergency.{invalid_header, is_emergency_block, is_emergency_allowed}
use fluxd_rust.Pon.Emergency.Signers.{EmergencySigned, validate_emergency_signatures_sound}
use fluxd_rust.Pon.Validation.{max_target, check_target, check_proof_of_node, validate_pon_header}

-- The proof of a node's hash against a target below a limit.
pub record IsProof (hash : List ℕ) (bits limit : ℕ) : Type 0 where
  pub target : ℕ
  pub target_of_bits : compact_to_u256 bits ≡ ok target
  pub target_pos : 0 < target
  pub target_limit : target ≤ limit
  pub hash_low : from_le_bytes hash ≤ target

check_target_iff :
    (hash : List ℕ) (target limit : ℕ)
    → (check_target hash target limit ≡ ok tt)
      ↔ ((0 < target) × (target ≤ limit) × (from_le_bytes hash ≤ target))
unfolding check_target
check_target_iff hash target limit =
    (λ h. (ground arith, ground arith, ground arith), λ h. ground arith)

by_target :
    (hash : List ℕ) (bits limit : ℕ) (r : Result CompactError ℕ)
    → compact_to_u256 bits ≡ r
    → (map_err (λ _. invalid_header "invalid pon target") r >>= λ target.
        check_target hash target limit)
      ≡ ok tt
    → IsProof hash bits limit
by_target hash bits limit (err x) e h = cc
by_target hash bits limit (ok target) e h =
    let (positive, below, low) = (check_target_iff hash target limit).0 h in
    record {
      target = target;
      target_of_bits = e;
      target_pos = positive;
      target_limit = below;
      hash_low = low;
    }

-- Outside of regtest the proof of a node is accepted exactly when the bits stand for a target that
-- is positive and within the limit of the height, and the hash is not above the target.
pub check_proof_of_node_iff :
    (hash : List ℕ) (bits : ℕ) (height : ℤ) (params : ConsensusParams)
    → is_regtest params.network ≡ false
    → (check_proof_of_node hash bits height params ≡ ok tt)
      ↔ IsProof hash bits (max_target height params)
unfolding check_proof_of_node
check_proof_of_node_iff hash bits height params outside = (
  λ h. by_target hash bits (max_target height params) (compact_to_u256 bits) refl (rw outside at h),
  λ proof.
      rw (outside, proof.target_of_bits)
        ((check_target_iff hash proof.target (max_target height params)).1
          (proof.target_pos, proof.target_limit, proof.hash_low)),
)

module _ {PublicKey Signature : Type 0} (parse_key : List ℕ → Option PublicKey)
    (parse_sig : List ℕ → Option Signature) (verify : List ℕ → Signature → PublicKey → Bool)
    (sha256d trim : List ℕ → List ℕ) where
  abbrev pub slot_hash : BlockHeader → ConsensusParams → List ℕ
  slot_hash header params =
      pon_hash sha256d header.nodes_collateral header.prev_block
        (get_slot_number (pos header.time) params.genesis_time params)

  -- Outside of regtest, a proof-of-node header is accepted only if it names a collateral and has a
  -- signature, and is either an emergency block at an allowed height that enough distinct known
  -- keys have signed, or one whose collateral's hash for the slot of its time proves its bits.
  pub validate_pon_header_sound :
      (header : BlockHeader) (height : ℤ) (params : ConsensusParams)
      → is_regtest params.network ≡ false
      → validate_pon_header parse_key parse_sig verify sha256d trim header height params ≡ ok tt
      → (same_outpoint header.nodes_collateral null ≡ false)
        × (is_nil header.block_sig ≡ false)
        × (((is_emergency_block header params ≡ true)
              × (is_emergency_allowed height params ≡ true)
              × EmergencySigned parse_key parse_sig verify sha256d trim header params)
            ⊎ ((is_emergency_block header params ≡ false)
                × IsProof (slot_hash header params) header.bits (max_target height params)))
  unfolding validate_pon_header
  validate_pon_header_sound header height params outside h =
      let (_, named, h₁) =
        >>=-eq-ok
          (fail_if (same_outpoint header.nodes_collateral null)
            (invalid_header "pon header missing collateral outpoint"))
          _ h in
      let (_, present, h₂) =
        >>=-eq-ok
          (fail_if (is_nil header.block_sig) (invalid_header "pon header missing signature")) _
          h₁ in
      (
        fail_if-eq-ok _ _ named,
        fail_if-eq-ok _ _ present,
        elim (Bool-cases (is_emergency_block header params)) [
          | inl emergency ↦
              let (_, allowed, h₃) =
                >>=-eq-ok
                  (fail_if (not (is_emergency_allowed height params))
                    (invalid_header "emergency block not allowed"))
                  _ (rw emergency at h₂) in
              inl (
                emergency,
                allowed_of (is_emergency_allowed height params) (fail_if-eq-ok _ _ allowed),
                validate_emergency_signatures_sound parse_key parse_sig verify sha256d trim header
                    params outside h₃,
              )
          | inr ordinary ↦ inr (
            ordinary,
            (check_proof_of_node_iff (slot_hash header params) header.bits height params outside).0
                (rw ordinary at h₂),
          )
        ],
      )
    where
      allowed_of : (b : Bool) → not b ≡ false → b ≡ true
      allowed_of true h = refl
      allowed_of false h = cc
