-- ===== src/Pon/Emergency.antt =====
-- crates/pon/src/validation.rs: emergency blocks, which enough of the known keys have signed. The
-- keys and signatures of the third-party crate secp256k1 are types of the model with its functions
-- as arguments: `parse_key` is `PublicKey::from_slice`, `parse_sig` is `Signature::from_der`,
-- `verify` is `verify_ecdsa` of a digest, and `trim` is that of `str`. A text is its bytes, which
-- are ASCII.
pub mod Signers
use Prim.Native.String.{String}
use fluxd_rust.Prelude.{
  is_nil, ℕ, zero, suc, ◌+◌, ◌-◌, ◌*◌, ◌/◌, ◌%◌, List, [], ◌∷◌, length, Bool, true, false, not,
  ◌&&◌, ◌||◌, Option, none, some, ltb, leb, ◌==◌, if◌then◌else◌,
}
use fluxd_rust.Prelude.Int.{ℤ, pos, pos_part, leb_ℤ}
use fluxd_rust.Prelude.Result.{Result, ok, err, and_then, ◌>>◌, ◌>>=◌, fail_if, map_err}
use fluxd_rust.Primitives.Encoding as Encoding
use fluxd_rust.Primitives.Encoding.{
  DecodeError, Decoder, new_decoder, is_empty, read_varint, read_var_bytes, read_many,
}
use fluxd_rust.Primitives.Block.{BlockHeader, is_pon, hash}
use fluxd_rust.Consensus.Params.{ConsensusParams, is_regtest}
use fluxd_rust.Consensus.Upgrades.{pon}
use fluxd_rust.Storage.Memory.{same_bytes}

pub data PonError : Type 0 where
  invalid_header : String → PonError

unfoldable pub is_emergency_block : BlockHeader → ConsensusParams → Bool
unfolding is_pon same_bytes
is_emergency_block header params =
    is_pon header
    && same_bytes header.nodes_collateral.hash params.emergency.collateral_hash
    && header.nodes_collateral.index == 0

unfoldable pub is_emergency_allowed : ℤ → ConsensusParams → Bool
is_emergency_allowed height params = leb_ℤ (params.upgrades pon).activation_height height

-- The vector of signatures, with an error for each way in which it can be wrong; a count fits in
-- the 64 bits of a usize.
unfoldable pub decode_multisig : List ℕ → Result PonError (List (List ℕ))
unfolding new_decoder is_empty read_varint read_many read_var_bytes
decode_multisig bytes =
    map_err (λ _. invalid_header "invalid emergency signature count")
      (read_varint (new_decoder bytes))
    >>= λ counted.
        map_err (λ _. invalid_header "invalid emergency signature")
          (read_many counted.0 read_var_bytes counted.1)
        >>= λ read.
            if is_empty read.1
            then ok read.0
            else err (invalid_header "trailing bytes in emergency signatures")

-- A digit of `from_str_radix(_, 16)`.
unfoldable pub hex_digit : ℕ → Option ℕ
hex_digit c =
    if leb b'0' c && leb c b'9'
    then some (c - b'0')
    else if leb b'a' c && leb c b'f'
    then some (c - b'a' + 10)
    else if leb b'A' c && leb c b'F'
    then some (c - b'A' + 10)
    else none

two_digits : Option ℕ → Option ℕ → Option ℕ
two_digits (some high) (some low) = some (high * 16 + low)
two_digits (some high) none = none
two_digits none low = none

-- `u8::from_str_radix` of two characters, the first of which may be a sign.
unfoldable pub hex_byte : ℕ → ℕ → Option ℕ
unfolding hex_digit two_digits
hex_byte first second =
    if first == b'+' then hex_digit second else two_digits (hex_digit first) (hex_digit second)

-- The loop over the pairs; an odd length is turned away before.
unfoldable pub hex_pairs : List ℕ → Result PonError (List ℕ)
unfolding hex_byte
hex_pairs [] = ok []
hex_pairs (c ∷ []) = ok []
hex_pairs (first ∷ second ∷ rest) =
    let later = hex_pairs rest in
    elim (hex_byte first second) [
      | some byte ↦ (later >>= λ bytes. ok (byte ∷ bytes))
      | none ↦ err (invalid_header "invalid hex pubkey")
    ]

-- `strip_prefix("0x")` or `strip_prefix("0X")`
unfoldable pub strip_hex_prefix : List ℕ → List ℕ
strip_hex_prefix [] = []
strip_hex_prefix (a ∷ []) = a ∷ []
strip_hex_prefix (a ∷ b ∷ rest) =
    if a == b'0' && (b == b'x' || b == b'X') then rest else a ∷ b ∷ rest

unfoldable pub hex_to_bytes : (List ℕ → List ℕ) → List ℕ → Result PonError (List ℕ)
unfolding strip_hex_prefix hex_pairs
hex_to_bytes trim input =
    let hex = strip_hex_prefix (trim input) in
    fail_if (length hex % 2 == 1) (invalid_header "invalid hex pubkey") >> hex_pairs hex

-- `used_keys.contains(&index)`
unfoldable pub is_used : ℕ → List ℕ → Bool
is_used index [] = false
is_used index (used ∷ more) = if index == used then true else is_used index more

-- `min_signatures.max(0) as usize`
abbrev pub min_required_of : ConsensusParams → ℕ
min_required_of params = pos_part params.emergency.min_signatures

module _ {PublicKey Signature : Type 0} (parse_key : List ℕ → Option PublicKey)
    (parse_sig : List ℕ → Option Signature) (verify : List ℕ → Signature → PublicKey → Bool)
    (sha256d trim : List ℕ → List ℕ) where
  -- A text that is no hexadecimal ends the loop; bytes that are no key are left out.
  unfoldable pub parse_keys : List (List ℕ) → Result PonError (List PublicKey)
  unfolding hex_to_bytes
  parse_keys [] = ok []
  parse_keys (key ∷ keys) =
      let later = parse_keys keys in
      hex_to_bytes trim key >>= λ bytes.
      later >>= λ rest. elim (parse_key bytes) [ some pubkey ↦ ok (pubkey ∷ rest) | none ↦ ok rest ]

  unfoldable pub parse_emergency_pubkeys : ConsensusParams → Result PonError (List PublicKey)
  unfolding parse_keys
  parse_emergency_pubkeys params = parse_keys params.emergency.public_keys

  -- The first key that is not used and that the signature is of: the loop with its `break`.
  unfoldable pub signer : List ℕ → Signature → List ℕ → ℕ → List PublicKey → Option ℕ
  unfolding is_used
  signer msg sig used index [] = none
  signer msg sig used index (key ∷ keys) =
      let later = signer msg sig used (suc index) keys in
      if is_used index used then later else if verify msg sig key then some index else later

  abbrev pub use_key : List ℕ → Option ℕ → List ℕ
  use_key used (some index) = index ∷ used
  use_key used none = used

  -- The loop over the signatures: `valid` is the number of the used keys.
  unfoldable pub count_signers :
      ℕ → List PublicKey → List ℕ → List ℕ → ℕ → List (List ℕ) → Result PonError (Unit {0})
  unfolding signer
  count_signers min_required keys msg used valid [] =
      err (invalid_header "emergency block signature verification failed")
  count_signers min_required keys msg used valid (bytes ∷ rest) = elim (parse_sig bytes) [
    | none ↦ count_signers min_required keys msg used valid rest
    | some sig ↦
        let found = signer msg sig used 0 keys in
        let valid' = valid + length (use_key [] found) in
        let later = count_signers min_required keys msg (use_key used found) valid' rest in
        if leb min_required valid' then ok tt else later
  ]

  -- With the keys known, the digest must be one and enough keys must have signed it.
  verify_signers : ℕ → List PublicKey → List ℕ → List (List ℕ) → Result PonError (Unit {0})
  unfolding count_signers
  verify_signers min_required keys digest signatures =
      fail_if (is_nil keys) (invalid_header "emergency block missing valid pubkeys")
      >> (fail_if (not (length digest == 32)) (invalid_header "invalid emergency block hash")
          >> count_signers min_required keys digest [] 0 signatures)

  unfoldable pub validate_emergency_signatures :
      BlockHeader → ConsensusParams → Result PonError (Unit {0})
  unfolding decode_multisig parse_emergency_pubkeys verify_signers hash
  validate_emergency_signatures header params = decode_multisig header.block_sig >>= λ signatures.
      fail_if (ltb (length signatures) (min_required_of params))
        (invalid_header "emergency block has insufficient signatures")
      >> (if is_regtest params.network
          then ok tt
          else (parse_emergency_pubkeys params >>= λ keys.
              verify_signers (min_required_of params) keys (hash sha256d header) signatures))
