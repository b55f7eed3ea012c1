-- ===== src/Node/Mempool.antt =====
-- crates/node/src/mempool.rs: the transactions that wait for a block, with their indexes. Of a transaction
-- the nullifiers are kept, which is what the pool reads of it. `f64` and its sum are parameters.
pub mod Removal
pub mod Insertion
pub mod Claims
pub mod Indexed
pub mod Wellformed
pub mod Eviction
pub mod Admission
pub mod Accepted
pub mod Depth
pub mod History
pub mod Orphans
use fluxd_rust.Prelude.{
  ℕ, zero, suc, ◌+◌, ◌-◌, ◌^◌, ◌≡◌, ◌↔◌, refl, sym, ap, ◌∙◌, min, List, [], ◌∷◌, ◌++◌, Bool, true,
  false, ◌&&◌, ◌||◌, not, length, Option, none, some, if◌then◌else◌, ◌==◌, ltb, leb, arith,
}
use fluxd_rust.Prelude.Int.{ℤ, pos, negsuc, ◌+ℤ◌, ◌*ℤ◌, ltb_ℤ, eq_ℤ}
use fluxd_rust.Prelude.Result.{Result, ok, err}
use fluxd_rust.Prelude.HashMap.{Key, contains, without, find, insert, erase}
use fluxd_rust.Primitives.OutPoint.Same.{same_outpoint, same_outpoint-eq, same_outpoint_refl}
use fluxd_rust.Primitives.OutPoint.{OutPoint}
use fluxd_rust.Storage.Memory.{same_bytes, bytes_lt}
use fluxd_rust.Storage.Memory.Lookup.{same_bytes-eq, same_bytes_refl}

abbrev pub Hash256 : Type 0
Hash256 = List ℕ

instance abbrev pub hash_key : Key (List ℕ)
hash_key = record {
  same = same_bytes;
  same_iff = λ a b. (same_bytes-eq a b, λ e. ap (same_bytes a) (sym e) ∙ same_bytes_refl a);
}

instance abbrev pub key_of_outpoint : Key OutPoint
key_of_outpoint = record {
  same = same_outpoint;
  same_iff =
      λ a b. (same_outpoint-eq a b, λ e. ap (same_outpoint a) (sym e) ∙ same_outpoint_refl a);
}

pub data MempoolErrorKind : Type 0 where
  already_in_mempool conflicting_input insufficient_fee missing_input mempool_full non_standard
        invalid_transaction invalid_script invalid_shielded internal :
      MempoolErrorKind

-- The nullifiers of each joinsplit, and that of each shielded spend.
pub record Nullifiers : Type 0 where
  pub join_splits : List (List Hash256)
  pub shielded_spends : List Hash256

abbrev pub i64_saturating_add : ℤ → ℤ → ℤ
i64_saturating_add a b =
    let sum = a +ℤ b in
    if ltb_ℤ (pos (2 ^ 63 - 1)) sum
    then pos (2 ^ 63 - 1)
    else if ltb_ℤ sum (negsuc (2 ^ 63 - 1))
    then negsuc (2 ^ 63 - 1)
    else sum

-- `usize` and `u64`
abbrev pub u64_saturating_add : ℕ → ℕ → ℕ
u64_saturating_add a b = min (a + b) (2 ^ 64 - 1)

pub record MempoolEntry (F : Type 0) : Type 0 where
  pub txid : Hash256
  pub tx : Nullifiers
  pub raw : List ℕ
  pub time : ℕ
  pub height : ℤ
  pub fee : ℤ
  pub value_in : ℤ
  pub modified_size : ℕ
  pub priority : F
  pub was_clear_at_entry : Bool
  pub fee_delta : ℤ
  pub priority_delta : F
  pub spent_outpoints : List OutPoint
  pub parents : List Hash256

pub record Prioritisation (F : Type 0) : Type 0 where
  pub priority_delta : F
  pub fee_delta : ℤ

-- Without the orphans, which the operations below leave alone.
pub record Mempool (F : Type 0) : Type 0 where
  pub entries : List (Hash256 × MempoolEntry F)
  pub spent : List (OutPoint × Hash256)
  pub sprout_nullifiers : List (Hash256 × Hash256)
  pub sapling_nullifiers : List (Hash256 × Hash256)
  pub children : List (Hash256 × List Hash256)
  pub prioritisations : List (Hash256 × Prioritisation F)
  pub total_bytes : ℕ
  pub max_bytes : ℕ
  pub revision : ℕ

pub record MempoolInsertOutcome : Type 0 where
  pub evicted : ℕ
  pub evicted_bytes : ℕ
  pub evicted_txids : List Hash256

pub record EvictCandidate : Type 0 where
  pub txid : Hash256
  pub fee : ℤ
  pub size : ℕ
  pub time : ℕ

abbrev pub is_some {ℓ} : {A : Type ℓ} → Option A → Bool
is_some none = false
is_some (some a) = true

unfoldable pub concat {ℓ} : {A : Type ℓ} → List (List A) → List A
concat [] = []
concat (xs ∷ xss) = xs ++ concat xss

-- `claimed.get(k) == Some(txid)`
unfoldable pub is_claimed_by : Option Hash256 → Hash256 → Bool
is_claimed_by none txid = false
is_claimed_by (some owner) txid = same_bytes owner txid

module _ {K : Type 0} ⦃key : Key K⦄ where
  -- `for k in claims { claimed.insert(k, txid) }`
  unfoldable pub claim_all : List K → Hash256 → List (K × Hash256) → List (K × Hash256)
  claim_all [] txid claimed = claimed
  claim_all (k ∷ claims) txid claimed = claim_all claims txid (insert k txid claimed)

  -- `for k in claims { if claimed.get(k) == Some(txid) { claimed.remove(k) } }`
  unfoldable pub release_all : List K → Hash256 → List (K × Hash256) → List (K × Hash256)
  release_all [] txid claimed = claimed
  release_all (k ∷ claims) txid claimed =
      release_all claims txid
        (if is_claimed_by (find claimed k) txid then erase k claimed else claimed)

  -- One of the claims is in the table already.
  unfoldable pub has_conflict : List K → List (K × Hash256) → Bool
  has_conflict [] claimed = false
  has_conflict (k ∷ claims) claimed = is_some (find claimed k) || has_conflict claims claimed

-- `children.entry(parent).or_default()`, with the child pushed once.
unfoldable pub link_parents :
    List Hash256 → Hash256 → List (Hash256 × List Hash256) → List (Hash256 × List Hash256)
link_parents [] txid children = children
link_parents (parent ∷ parents) txid children =
    let known : List Hash256 = elim (find children parent) [ none ↦ [] | some cs ↦ cs ] in
    link_parents parents txid
      (insert parent (if contains known txid then known else known ++ (txid ∷ [])) children)

unfoldable pub unlink_parents :
    List Hash256 → Hash256 → List (Hash256 × List Hash256) → List (Hash256 × List Hash256)
unlink_parents [] txid children = children
unlink_parents (parent ∷ parents) txid children =
    unlink_parents parents txid (elim (find children parent) [
      | none ↦ children
      | some known ↦ elim (without txid known) [
        | [] ↦ erase parent children
        | (c ∷ cs) ↦ insert parent (c ∷ cs) children
      ]
    ])

abbrev pub new : {F : Type 0} → ℕ → Mempool F
new max_bytes = record {
  entries = [];
  spent = [];
  sprout_nullifiers = [];
  sapling_nullifiers = [];
  children = [];
  prioritisations = [];
  total_bytes = 0;
  max_bytes = max_bytes;
  revision = 0;
}

module _ {F : Type 0} where
  abbrev pub size_of : MempoolEntry F → ℕ
  size_of e = length e.raw

  abbrev pub modified_fee : MempoolEntry F → ℤ
  modified_fee e = i64_saturating_add e.fee e.fee_delta

  abbrev pub is_spent : Mempool F → OutPoint → Bool
  is_spent p o = is_some (find p.spent o)

  abbrev pub spender : Mempool F → OutPoint → Option Hash256
  spender p o = find p.spent o

  abbrev pub get : Mempool F → Hash256 → Option (MempoolEntry F)
  get p txid = find p.entries txid
