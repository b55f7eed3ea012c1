-- ===== src/Node/Mempool/History.antt =====
-- mempool.rs: the pools that its operations lead to, in any order.
use fluxd_rust.Prelude.{ℕ, ◌+◌, ◌^◌, ◌≤◌, ◌<◌, ◌≡◌, refl, ◌∙◌, arith}
use fluxd_rust.Prelude.Int.{ℤ}
use fluxd_rust.Prelude.HashMap.{find, Unique, sum_of}
use fluxd_rust.Node.Mempool.{
  Hash256, hash_key, key_of_outpoint, MempoolEntry, Mempool, size_of, new,
}
use fluxd_rust.Node.Mempool.Removal.{remove, descendants, remove_with_descendants}
use fluxd_rust.Node.Mempool.Insertion.{insert_entry, prioritise_transaction}
use fluxd_rust.Node.Mempool.Wellformed.{Wellformed, remove_lem, remove_bytes, remove_each_bytes}
use fluxd_rust.Node.Mempool.Eviction.{remove_with_descendants-Wellformed}
use fluxd_rust.Node.Mempool.Admission.{insert_entry-Sound}
use fluxd_rust.Node.Mempool.Accepted.{prioritise_transaction-Wellformed}

module _ {F : Type 0} (add : F → F → F) (zero_f : F) where
  -- The operations, each called on the pool that the last one left.
  pub data Reachable (limit : ℕ) : Mempool F → Type 0 where
    started : Reachable limit (new limit)
    inserted :
        (p : Mempool F) (entry : MempoolEntry F)
        → p.total_bytes + size_of entry < 2 ^ 64
        → Reachable limit p
        → Reachable limit (insert_entry add p entry).0
    removed :
        (p : Mempool F) (txid : Hash256) → Reachable limit p → Reachable limit (remove p txid).0
    removed_with_descendants :
        (p : Mempool F) (txid : Hash256)
        → Reachable limit p
        → Reachable limit (remove_with_descendants p txid).0
    reprioritised :
        (p : Mempool F) (txid : Hash256) (priority_delta : F) (fee_delta : ℤ)
        → Reachable limit p
        → Reachable limit (prioritise_transaction add p txid priority_delta fee_delta zero_f)

  new-Wellformed : (limit : ℕ) → Wellformed (new {F = F} limit)
  unfolding Unique sum_of find
  new-Wellformed limit = record {
    unique = tt;
    keyed = λ t h there. absurd cc;
    counted = refl;
    outpoints = record { owner = λ k t h. absurd cc; held = λ t e k h. absurd cc };
    sprouts = record { owner = λ k t h. absurd cc; held = λ t e k h. absurd cc };
    saplings = record { owner = λ k t h. absurd cc; held = λ t e k h. absurd cc };
  }

  -- Of every pool that the operations lead to from an empty one, when the bytes of its insertions fit a
  -- machine word: it is well-formed, and a limit other than zero is kept.
  pub Reachable-Wellformed :
      (limit : ℕ) (p : Mempool F)
      → Reachable limit p
      → Wellformed p × (p.max_bytes ≡ limit) × (0 < limit → p.total_bytes ≤ limit)
  unfolding remove_with_descendants prioritise_transaction
  Reachable-Wellformed limit _ started = (new-Wellformed limit, refl, λ some_limit. omega arith)
  Reachable-Wellformed limit _ (inserted p entry fits r) =
      let before = Reachable-Wellformed limit p r in
      let s = insert_entry-Sound add p entry before.0 fits in
      (
        s.wellformed,
        s.limit ∙ before.1,
        λ some_limit. omega (
          arith,
          before.1,
          before.2 some_limit,
          s.limit,
          s.fits (omega (arith, before.1, some_limit))
              (omega (arith, before.1, before.2 some_limit)),
        ),
      )
  Reachable-Wellformed limit _ (removed p txid r) =
      let before = Reachable-Wellformed limit p r in
      let after = remove_lem p txid before.0 in
      (
        after.0,
        after.2 ∙ before.1,
        λ some_limit. omega (arith, before.2 some_limit, remove_bytes p txid),
      )
  Reachable-Wellformed limit _ (removed_with_descendants p txid r) =
      let before = Reachable-Wellformed limit p r in
      let after = remove_with_descendants-Wellformed p txid before.0 in
      (
        after.0,
        after.1 ∙ before.1,
        λ some_limit. omega (arith, before.2 some_limit, remove_each_bytes (descendants p txid) p),
      )
  Reachable-Wellformed limit _ (reprioritised p txid pd fd r) =
      let before = Reachable-Wellformed limit p r in
      (prioritise_transaction-Wellformed add p txid pd fd zero_f before.0, before.1, before.2)
