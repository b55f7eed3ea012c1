-- ===== src/Pow/Headers.antt =====
-- crates/pow/src/difficulty.rs: the headers that the choice of the next target looks at.
use Prim.Native.Nat.{compare, Ordering}
use fluxd_rust.Prelude.{ℕ, ◌+◌, ◌≡◌, ◌↔◌, refl, List, [], ◌∷◌, not, Bool-cases, inl, inr}
use fluxd_rust.Prelude.Int.{ℤ, pos, ◌+ℤ◌, ◌-ℤ◌, eq_ℤ, eq_ℤ-true, eq_ℤ_refl}
use fluxd_rust.Prelude.Result.{Result, ok, ◌>>◌, fail_if}
use fluxd_rust.Primitives.Bytes.{from_le_bytes}
use fluxd_rust.Consensus.Upgrades.{UpgradeIndex}
use fluxd_rust.Consensus.Params.{ConsensusParams}
use fluxd_rust.Pow.Compact.{CompactError}

pub record HeaderInfo : Type 0 where
  pub height : ℤ
  pub time : ℤ
  pub bits : ℕ

pub data DifficultyError : Type 0 where
  empty_chain non_contiguous : DifficultyError
  compact : CompactError → DifficultyError

unfoldable pub cmp_be : List ℕ → List ℕ → Ordering
cmp_be a b = compare (from_le_bytes a) (from_le_bytes b)

-- `for (idx, header) in chain.iter().enumerate()`, from the index `idx` on.
check_heights : ℤ → ℕ → List HeaderInfo → Result DifficultyError (Unit {0})
check_heights base idx [] = ok tt
check_heights base idx (header ∷ rest) = do
  fail_if (not (eq_ℤ header.height (base +ℤ pos idx))) non_contiguous
  check_heights base (idx + 1) rest

-- `chain[0]` is an argument of its own: the callers turn an empty chain away.
unfoldable pub ensure_contiguous : HeaderInfo → List HeaderInfo → Result DifficultyError (Unit {0})
unfolding check_heights
ensure_contiguous first rest = check_heights first.height 0 (first ∷ rest)

unfoldable pub eh_epoch_end : ConsensusParams → UpgradeIndex → ℤ
unfolding ◌+ℤ◌ ◌-ℤ◌
eh_epoch_end p upgrade =
    (p.upgrades upgrade).activation_height +ℤ pos p.eh_epoch_fade_length -ℤ pos 1

-- The heights rise by one from the base and the index on.
abbrev pub IsContiguous : ℤ → ℕ → List HeaderInfo → Type 0
IsContiguous base idx [] = Unit {0}
IsContiguous base idx (header ∷ rest) =
    (header.height ≡ base +ℤ pos idx) × IsContiguous base (idx + 1) rest

check_heights_iff :
    (base : ℤ) (idx : ℕ) (chain : List HeaderInfo)
    → (check_heights base idx chain ≡ ok tt) ↔ IsContiguous base idx chain
unfolding check_heights
check_heights_iff base idx [] = (λ h. tt, λ h. refl)
check_heights_iff base idx (header ∷ rest) =
    let later = check_heights_iff base (idx + 1) rest in (sound later.0, complete later.1)
  where
    sound :
        (check_heights base (idx + 1) rest ≡ ok tt → IsContiguous base (idx + 1) rest)
        → check_heights base idx (header ∷ rest) ≡ ok tt
        → (header.height ≡ base +ℤ pos idx) × IsContiguous base (idx + 1) rest
    sound later h = elim (Bool-cases (eq_ℤ header.height (base +ℤ pos idx))) [
      | inl same ↦ (eq_ℤ-true header.height (base +ℤ pos idx) same, later (rw same at h))
      | inr other ↦ cc (rw other at h)
    ]

    complete :
        (IsContiguous base (idx + 1) rest → check_heights base (idx + 1) rest ≡ ok tt)
        → (header.height ≡ base +ℤ pos idx) × IsContiguous base (idx + 1) rest
        → check_heights base idx (header ∷ rest) ≡ ok tt
    complete later (same, more) = rw (same, eq_ℤ_refl (base +ℤ pos idx)) (later more)

-- A chain of headers passes exactly when the heights rise by one from each header to the next.
ensure_contiguous_iff :
    (first : HeaderInfo) (rest : List HeaderInfo)
    → (ensure_contiguous first rest ≡ ok tt) ↔ IsContiguous first.height 0 (first ∷ rest)
unfolding ensure_contiguous
ensure_contiguous_iff first rest = check_heights_iff first.height 0 (first ∷ rest)
