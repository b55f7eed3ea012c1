-- ===== src/Primitives/Transaction/Encode/Encodable.antt =====
-- The transactions that `encode_with_mode` of transaction.rs can write in their format.
use fluxd_rust.Prelude.{
  ℕ, ◌≡◌, ◌⊎◌, ◌↔◌, ◌<◌, ◌^◌, ◌/◌, ◌%◌, ◌==◌, inl, inr, Bool-cases, arith, refl, List, [], ◌∷◌,
  Bool, true, false, ◌&&◌, Option, none, some,
}
use fluxd_rust.Prelude.Int.{ℤ, pos, leb_ℤ}
use fluxd_rust.Prelude.Result.{Result, ok, ◌>>=◌}
use fluxd_rust.Primitives.Bytes.{as_unsigned}
use fluxd_rust.Primitives.Encoding.Reads.{All}
use fluxd_rust.Primitives.FluxnodeTransaction.{
  FluxnodeDelegates, FluxnodeStartVariantV6, normal, p2sh, FluxnodeTxV5, FluxnodeTxV6, start_v6,
  confirm_v6, v5, v6,
}
use fluxd_rust.Primitives.FluxnodeTransaction.Version.{is_normal, is_p2sh, low_bits_decide}
use fluxd_rust.Primitives.FluxnodeTransaction.Decode.StartV6.{Agrees, Given}
use fluxd_rust.Primitives.Transaction.{Transaction}
use fluxd_rust.Primitives.Transaction.Errors.{TransactionEncodeError}
use fluxd_rust.Primitives.Transaction.JoinSplits.{SproutProof, groth, phgr, JoinSplit, is_groth}

-- A result that is no error.
abbrev pub Succeeds : {A : Type 0} → Result TransactionEncodeError A → Type 0
Succeeds {A} r = (a : A) × (r ≡ ok a)

-- The variant of a start is the one that the two lowest bits of its version name.
abbrev MatchesBits : FluxnodeStartVariantV6 → ℤ → Type 0
MatchesBits (normal _ _ _ _ _) version = as_unsigned (2 ^ 32) version % 4 ≡ 1
MatchesBits (p2sh _ _ _ _ _) version = as_unsigned (2 ^ 32) version % 4 ≡ 2

-- The bit for delegates is not set, they are not in use, or they are there.
abbrev HasDelegates : ℕ → Bool → Option FluxnodeDelegates → Type 0
HasDelegates bit used delegates =
    (bit ≡ 0) ⊎ ((used ≡ false) ⊎ ((d : FluxnodeDelegates) × (delegates ≡ some d)))

abbrev pub IsEncodableV6 : FluxnodeTxV6 → Type 0
IsEncodableV6 (confirm_v6 confirm) = Unit {0}
IsEncodableV6 (start_v6 start) =
    MatchesBits start.variant start.flux_tx_version
    × HasDelegates (as_unsigned (2 ^ 32) start.flux_tx_version / 2 ^ 8 % 2) start.using_delegates
        start.delegates

abbrev pub AllGroth : List JoinSplit → Type 0
AllGroth splits = All (λ j. (proof : List ℕ) × (j.proof ≡ groth proof)) splits

abbrev pub AllPhgr : List JoinSplit → Type 0
AllPhgr splits = All (λ j. (proof : List ℕ) × (j.proof ≡ phgr proof)) splits

-- The five formats of a transaction, each with the payload or the kind of proofs that it holds. The
-- first version of the format without the flag of overwinter has no place for join splits.
pub data IsEncodable (tx : Transaction) : Type 0 where
  with_v5 :
      (payload : FluxnodeTxV5)
      → tx.version ≡ pos 5
      → tx.f_overwintered ≡ false
      → tx.fluxnode ≡ some (v5 payload)
      → IsEncodable tx
  with_v6 :
      (payload : FluxnodeTxV6)
      → tx.version ≡ pos 6
      → tx.f_overwintered ≡ false
      → tx.fluxnode ≡ some (v6 payload)
      → IsEncodableV6 payload
      → IsEncodable tx
  sprout :
      ¬ (tx.version ≡ pos 5)
      → ¬ (tx.version ≡ pos 6)
      → tx.f_overwintered ≡ false
      → (leb_ℤ (pos 2) tx.version ≡ false) ⊎ AllPhgr tx.join_splits
      → IsEncodable tx
  overwinter :
      tx.version ≡ pos 3
      → tx.f_overwintered ≡ true
      → tx.version_group_id ≡ 0x03c4_8270
      → AllPhgr tx.join_splits
      → IsEncodable tx
  sapling :
      tx.version ≡ pos 4
      → tx.f_overwintered ≡ true
      → tx.version_group_id ≡ 0x892f_2085
      → AllGroth tx.join_splits
      → IsEncodable tx

-- What the encoder tests of a start.
pub Agrees-MatchesBits :
    (v : FluxnodeStartVariantV6) (version : ℤ)
    → Agrees v (is_normal version) (is_p2sh version) ↔ MatchesBits v version
Agrees-MatchesBits (normal _ _ _ _ _) version =
    let (n, p) = low_bits_decide version in rw n (λ h. ground arith, λ h. ground arith)
Agrees-MatchesBits (p2sh _ _ _ _ _) version =
    let (n, p) = low_bits_decide version in
    rw (n, p) (λ h. ground (arith, h.1), λ h. (ground arith, ground arith))

pub Given-HasDelegates :
    (bit : ℕ) (used : Bool) (delegates : Option FluxnodeDelegates)
    → bit < 2
    → Given ((bit == 1) && used) delegates ↔ HasDelegates bit used delegates
Given-HasDelegates bit false delegates low = elim (Bool-cases (bit == 1)) [
  | inl e ↦ rw e (λ h. inr (inl refl), λ h. tt)
  | inr e ↦ rw e (λ h. inr (inl refl), λ h. tt)
]
Given-HasDelegates bit true (some d) low = elim (Bool-cases (bit == 1)) [
  | inl e ↦ rw e (λ h. inr (inr (d, refl)), λ h. tt)
  | inr e ↦ rw e (λ h. inr (inr (d, refl)), λ h. tt)
]
Given-HasDelegates bit true none low = elim (Bool-cases (bit == 1)) [
  | inl e ↦ rw e (λ h. absurd h, absent e)
  | inr e ↦ rw e (λ h. inl (ground arith), λ h. tt)
]
  where
    absent : (bit == 1) ≡ true → HasDelegates bit true none → ⊥
    absent e (inl zero_bit) = ground arith
    absent e (inr (inl unused)) = cc
    absent e (inr (inr (d, held))) = cc

-- What the encoder tests of the proofs.
is_groth-groth : (p : SproutProof) → (is_groth p ≡ true) ↔ ((proof : List ℕ) × (p ≡ groth proof))
is_groth-groth (groth proof) = (λ h. (proof, refl), λ h. refl)
is_groth-groth (phgr proof) = (λ h. cc, λ h. cc)

is_groth-phgr : (p : SproutProof) → (is_groth p ≡ false) ↔ ((proof : List ℕ) × (p ≡ phgr proof))
is_groth-phgr (groth proof) = (λ h. cc, λ h. cc)
is_groth-phgr (phgr proof) = (λ h. (proof, refl), λ h. refl)

abbrev pub AllKind : Bool → List JoinSplit → Type 0
AllKind use_groth splits = All (λ j. is_groth j.proof ≡ use_groth) splits

pub AllKind-groth : (js : List JoinSplit) → AllKind true js ↔ AllGroth js
AllKind-groth [] = (λ h. tt, λ h. tt)
AllKind-groth (j ∷ js) = (
  λ h. ((is_groth-groth j.proof).0 h.0, (AllKind-groth js).0 h.1),
  λ h. ((is_groth-groth j.proof).1 h.0, (AllKind-groth js).1 h.1),
)

pub AllKind-phgr : (js : List JoinSplit) → AllKind false js ↔ AllPhgr js
AllKind-phgr [] = (λ h. tt, λ h. tt)
AllKind-phgr (j ∷ js) = (
  λ h. ((is_groth-phgr j.proof).0 h.0, (AllKind-phgr js).0 h.1),
  λ h. ((is_groth-phgr j.proof).1 h.0, (AllKind-phgr js).1 h.1),
)

pub Succeeds-bind :
    {A B : Type 0} {r : Result TransactionEncodeError A}
    (next : A → Result TransactionEncodeError B)
    → Succeeds r
    → ((a : A) → Succeeds (next a))
    → Succeeds (r >>= next)
Succeeds-bind next (a, h) k = rw h (k a)
