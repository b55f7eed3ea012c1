-- ===== src/Primitives/OutPoint/Same.antt =====
-- `==` on the outpoints of crates/primitives/src/outpoint.rs.
use fluxd_rust.Prelude.{Bool, true, ◌&&◌, ◌==◌, ◌≡◌, arith}
use fluxd_rust.Storage.Memory.{same_bytes}
use fluxd_rust.Storage.Memory.Lookup.{same_bytes-eq, same_bytes_refl}
use fluxd_rust.Primitives.OutPoint.{OutPoint}

abbrev pub same_outpoint : OutPoint → OutPoint → Bool
same_outpoint a b = same_bytes a.hash b.hash && a.index == b.index

pub same_outpoint-eq : (a b : OutPoint) → same_outpoint a b ≡ true → a ≡ b
same_outpoint-eq a b h =
    let hash : same_bytes a.hash b.hash ≡ true = ground arith in
    let index : a.index ≡ b.index = ground arith in
    λ i. record { hash = same_bytes-eq a.hash b.hash hash i; index = index i }

pub same_outpoint_refl : (a : OutPoint) → same_outpoint a a ≡ true
same_outpoint_refl a = ground (arith, same_bytes_refl a.hash)
