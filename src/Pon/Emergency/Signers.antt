-- ===== src/Pon/Emergency/Signers.antt =====
-- The keys that an accepted emergency block of crates/pon/src/validation.rs is signed with.
use fluxd_rust.Prelude.{
  is_nil, ℕ, suc, ◌+◌, ◌≤◌, ◌≡◌, refl, List, [], ◌∷◌, length, get_elem?, Bool, true, false, not,
  Option, some, ltb, leb, ◌==◌, if◌then◌else◌, inl, inr, Bool-cases, Option-cases, arith,
}
use fluxd_rust.Prelude.Result.{Result, ok, fail_if, >>=-eq-ok}
use fluxd_rust.Primitives.Encoding.Reads.{All}
use fluxd_rust.Primitives.Block.{BlockHeader, hash}
use fluxd_rust.Consensus.Params.{ConsensusParams, is_regtest}
use fluxd_rust.Pon.Emergency.{
  PonError, decode_multisig, is_used, parse_emergency_pubkeys, signer, count_signers,
  min_required_of, verify_signers, validate_emergency_signatures,
}

-- No index stands twice.
abbrev pub IsDistinct : List ℕ → Type 0
IsDistinct [] = Unit {0}
IsDistinct (index ∷ used) = (is_used index used ≡ false) × IsDistinct used

-- One of the values of a list.
abbrev pub IsAmong {ℓ} : {A : Type ℓ} → List A → A → Type ℓ
IsAmong xs x = (n : ℕ) × (get_elem? xs n ≡ some x)

All-IsAmong_of :
    {A : Type 0} (P : A → Type 0) (xs : List A)
    → ((n : ℕ) (x : A) → get_elem? xs n ≡ some x → P x)
    → All P xs
All-IsAmong_of P [] h = tt
All-IsAmong_of P (x ∷ xs) h = (h 0 x refl, All-IsAmong_of P xs (λ n y e. h (suc n) y e))

All-IsAmong : {A : Type 0} (xs : List A) → All (IsAmong xs) xs
All-IsAmong xs = All-IsAmong_of (IsAmong xs) xs (λ n x e. (n, e))

module _ {PublicKey Signature : Type 0} (parse_key : List ℕ → Option PublicKey)
    (parse_sig : List ℕ → Option Signature) (verify : List ℕ → Signature → PublicKey → Bool)
    (sha256d trim : List ℕ → List ℕ) where
  -- The key at the index has made one of the signatures.
  pub record HasSigned (msg : List ℕ) (signatures : List (List ℕ)) (keys : List PublicKey)
      (index : ℕ) : Type 0 where
    pub key : PublicKey
    pub key_known : get_elem? keys index ≡ some key
    pub bytes : List ℕ
    pub bytes_given : IsAmong signatures bytes
    pub sig : Signature
    pub sig_parsed : parse_sig bytes ≡ some sig
    pub sig_verified : verify msg sig key ≡ true

  -- What the inner loop finds is not used yet, and its key has made the signature.
  signer_lem :
      (msg : List ℕ) (sig : Signature) (used : List ℕ) (index : ℕ) (keys : List PublicKey)
      {found : ℕ}
      → signer parse_key parse_sig verify sha256d trim msg sig used index keys ≡ some found
      → (is_used found used ≡ false)
        × (n : ℕ) × (key : PublicKey) × (found ≡ index + n)
        × (get_elem? keys n ≡ some key)
        × (verify msg sig key ≡ true)
  unfolding signer
  signer_lem msg sig used index [] h = cc
  signer_lem msg sig used index (key ∷ keys) {found} h = elim (Bool-cases (is_used index used)) [
    | inl taken ↦ shift (signer_lem msg sig used (suc index) keys (rw taken at h))
    | inr free ↦ elim (Bool-cases (verify msg sig key)) [
      | inl good ↦
          let e : ◌≡◌ {A = Option ℕ} (some index) (some found) = rw (free, good) at h in
          let same : index ≡ found = cc in (rw (← same) free, 0, key, omega arith, refl, good)
      | inr bad ↦ shift (signer_lem msg sig used (suc index) keys (rw (free, bad) at h))
    ]
  ]
    where
      shift :
          (is_used found used ≡ false)
            × (n : ℕ) × (key : PublicKey) × (found ≡ suc index + n)
            × (get_elem? keys n ≡ some key)
            × (verify msg sig key ≡ true)
          → (is_used found used ≡ false)
            × (n : ℕ) × (key' : PublicKey) × (found ≡ index + n)
            × (get_elem? (key ∷ keys) n ≡ some key')
            × (verify msg sig key' ≡ true)
      shift (free, n, key', e, known, good) = (free, suc n, key', omega arith, known, good)

  -- Enough distinct keys have signed.
  abbrev pub EnoughSigned : ℕ → List ℕ → List (List ℕ) → List PublicKey → Type 0
  EnoughSigned min_required msg signatures keys =
      (used : List ℕ) × IsDistinct used
      × (min_required ≤ length used)
      × All (HasSigned msg signatures keys) used

  module _ (min_required : ℕ) (keys : List PublicKey) (msg : List ℕ)
      (signatures : List (List ℕ)) where
    abbrev loop : List ℕ → ℕ → List (List ℕ) → Result PonError (Unit {0})
    loop = count_signers parse_key parse_sig verify sha256d trim min_required keys msg

    -- Either enough keys have signed by now, or the loop goes on.
    after_found :
        (used : List ℕ) (valid : ℕ) (rest : List (List ℕ))
        → IsDistinct used
        → valid ≡ length used
        → All (HasSigned msg signatures keys) used
        → (loop used valid rest ≡ ok tt → EnoughSigned min_required msg signatures keys)
        → (if leb min_required valid then ok tt else loop used valid rest) ≡ ok tt
        → EnoughSigned min_required msg signatures keys
    after_found used valid rest distinct counted signed later h =
        elim (Bool-cases (leb min_required valid)) [
          | inl enough ↦ (used, distinct, ground arith, signed)
          | inr short ↦ later (rw short at h)
        ]

    -- The used keys stay distinct signers, and `valid` counts them.
    count_signers_lem :
        (used : List ℕ) (valid : ℕ) (rest : List (List ℕ))
        → All (IsAmong signatures) rest
        → IsDistinct used
        → valid ≡ length used
        → All (HasSigned msg signatures keys) used
        → loop used valid rest ≡ ok tt
        → EnoughSigned min_required msg signatures keys
    unfolding count_signers
    count_signers_lem used valid [] among distinct counted signed h = cc
    count_signers_lem used valid (bytes ∷ rest) among distinct counted signed h =
        elim (Option-cases (parse_sig bytes)) [
          | inl unparsed ↦
              count_signers_lem used valid rest among.1 distinct counted signed
                (rw (unparsed, count_signers) at h)
          | inr (sig, parsed) ↦
              elim (Option-cases
                (signer parse_key parse_sig verify sha256d trim msg sig used 0 keys)) [
                  | inl no_key ↦
                      let count : valid + 0 ≡ length used = omega arith in
                      after_found used (valid + 0) rest distinct count signed
                        (count_signers_lem used (valid + 0) rest among.1 distinct count signed)
                        (rw (parsed, count_signers, no_key) at h)
                  | inr (found, e) ↦
                      let (free, n, key, at_n, known, good) = signer_lem msg sig used 0 keys e in
                      let distinct' : IsDistinct (found ∷ used) = (free, distinct) in
                      let count : valid + 1 ≡ length (found ∷ used) = omega arith in
                      let index : n ≡ found = omega arith in
                      let new : HasSigned msg signatures keys found = record {
                        key = key;
                        key_known = rw index at known;
                        bytes = bytes;
                        bytes_given = among.0;
                        sig = sig;
                        sig_parsed = parsed;
                        sig_verified = good;
                      } in
                      after_found (found ∷ used) (valid + 1) rest distinct' count (new, signed)
                        (count_signers_lem (found ∷ used) (valid + 1) rest among.1 distinct' count
                          (new, signed))
                        (rw (parsed, count_signers, e) at h)
                ]
        ]

  -- What an accepted block shows.
  pub record EmergencySigned (header : BlockHeader) (params : ConsensusParams) : Type 0 where
    pub signatures : List (List ℕ)
    pub signatures_decoded : decode_multisig header.block_sig ≡ ok signatures
    pub keys : List PublicKey
    pub keys_parsed :
        parse_emergency_pubkeys parse_key parse_sig verify sha256d trim params ≡ ok keys
    pub enough : EnoughSigned (min_required_of params) (hash sha256d header) signatures keys

  -- Outside of regtest, an emergency block whose signatures are accepted carries signatures by at
  -- least the required number of distinct keys among those of the parameters, over its hash.
  pub validate_emergency_signatures_sound :
      (header : BlockHeader) (params : ConsensusParams)
      → is_regtest params.network ≡ false
      → validate_emergency_signatures parse_key parse_sig verify sha256d trim header params ≡ ok tt
      → EmergencySigned header params
  unfolding validate_emergency_signatures verify_signers
  validate_emergency_signatures_sound header params outside h =
      let (signatures, decoded, h₁) = >>=-eq-ok (decode_multisig header.block_sig) _ h in
      let (_, some_given, h₂) =
        >>=-eq-ok (fail_if (ltb (length signatures) (min_required_of params)) _) _ h₁ in
      let (keys, parsed, h₃) =
        >>=-eq-ok (parse_emergency_pubkeys parse_key parse_sig verify sha256d trim params) _
          (rw outside at h₂) in
      let (_, some_key, h₄) = >>=-eq-ok (fail_if (is_nil keys) _) _ h₃ in
      let (_, digest, h₅) = >>=-eq-ok (fail_if (not (length (hash sha256d header) == 32)) _) _ h₄ in
      record {
        signatures = signatures;
        signatures_decoded = decoded;
        keys = keys;
        keys_parsed = parsed;
        enough =
            count_signers_lem (min_required_of params) keys (hash sha256d header) signatures [] 0
              signatures (All-IsAmong signatures) tt refl tt h₅;
      }
