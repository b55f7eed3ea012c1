-- ===== src/Tests/Emergency.antt =====
-- Proof-of-node headers of crates/pon/src/validation.rs, emergency blocks among them.
use fluxd_rust.Prelude.{
  ℕ, ◌≡◌, ◌↔◌, ◌⊎◌, refl, List, [], ◌∷◌, replicate, is_nil, Bool, true, false, Option, none, some,
  ◌==◌,
}
use fluxd_rust.Prelude.Int.{pos}
use fluxd_rust.Prelude.Result.{ok}
use fluxd_rust.Primitives.Encoding.{new_decoder, read_varint, read_var_bytes}
use fluxd_rust.Primitives.OutPoint.{null}
use fluxd_rust.Primitives.OutPoint.Same.{same_outpoint}
use fluxd_rust.Primitives.Block.{BlockHeader}
use fluxd_rust.Consensus.Params.{ConsensusParams}
use fluxd_rust.Pon.Emergency.{
  is_emergency_block, is_emergency_allowed, validate_emergency_signatures,
}
use fluxd_rust.Pon.Emergency.Signers.{EmergencySigned, validate_emergency_signatures_sound}
use fluxd_rust.Pon.Validation.{max_target, check_proof_of_node, validate_pon_header}
use fluxd_rust.Pon.Validation.Accepted.{
  IsProof, slot_hash, check_proof_of_node_iff, validate_pon_header_sound,
}
use fluxd_rust.Tests.Consensus.{main_params}

-- Keys and signatures that are their first byte, and a hash that is always the same.
abbrev parse : List ℕ → Option ℕ
parse [] = none
parse (b ∷ bytes) = some b

abbrev verify : List ℕ → ℕ → ℕ → Bool
verify digest sig key = sig == key

abbrev digest_of : List ℕ → List ℕ
digest_of bytes = replicate 32 7

abbrev trim : List ℕ → List ℕ
trim text = text

-- The keys 2 and 3 as texts.
abbrev params : ConsensusParams
params = record main_params {
  emergency = record {
    public_keys = (0x30 ∷ 0x32 ∷ []) ∷ (0x30 ∷ 0x33 ∷ []) ∷ [];
    collateral_hash = replicate 32 0x45;
    min_signatures = pos 2;
  };
}

-- Two signatures, by the second key and by the first.
abbrev header : BlockHeader
header = record {
  version = pos 100;
  prev_block = replicate 32 1;
  merkle_root = replicate 32 2;
  final_sapling_root = replicate 32 3;
  time = 1_700_000_000;
  bits = 0x1d00_ffff;
  nonce = replicate 32 0;
  solution = [];
  nodes_collateral = record { hash = replicate 32 0x45; index = 0 };
  block_sig = 2 ∷ 1 ∷ 3 ∷ 1 ∷ 2 ∷ [];
}

signed : validate_emergency_signatures parse parse verify digest_of trim header params ≡ ok tt
unfolding validate_emergency_signatures read_varint read_var_bytes new_decoder
signed = refl

accepted :
    validate_pon_header parse parse verify digest_of trim header (pos 2_020_000) params ≡ ok tt
unfolding validate_pon_header read_varint read_var_bytes new_decoder
accepted = refl

validate_emergency_signatures_sound_example :
    EmergencySigned parse parse verify digest_of trim header params
validate_emergency_signatures_sound_example =
    validate_emergency_signatures_sound parse parse verify digest_of trim header params refl signed

validate_pon_header_sound_example :
    (same_outpoint header.nodes_collateral null ≡ false)
    × (is_nil header.block_sig ≡ false)
    × (((is_emergency_block header params ≡ true)
          × (is_emergency_allowed (pos 2_020_000) params ≡ true)
          × EmergencySigned parse parse verify digest_of trim header params)
        ⊎ ((is_emergency_block header params ≡ false)
            × IsProof
                (slot_hash parse parse verify digest_of trim header params)
                header.bits
                (max_target (pos 2_020_000) params)))
validate_pon_header_sound_example =
    validate_pon_header_sound parse parse verify digest_of trim header (pos 2_020_000) params refl
      accepted

check_proof_of_node_iff_example :
    (check_proof_of_node (replicate 32 0) 0x1d00_ffff (pos 2_020_100) params ≡ ok tt)
    ↔ IsProof (replicate 32 0) 0x1d00_ffff (max_target (pos 2_020_100) params)
check_proof_of_node_iff_example =
    check_proof_of_node_iff (replicate 32 0) 0x1d00_ffff (pos 2_020_100) params refl
