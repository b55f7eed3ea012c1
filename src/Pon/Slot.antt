-- ===== src/Pon/Slot.antt =====
-- crates/pon/src/slot.rs: the slot of a time, and the hash of a node for a slot.
use native.Mathlib.Nat.{div-add-mod, mod-lt, div-lt_iff_lt-mul}
use fluxd_rust.Prelude.{
  ℕ, ◌+◌, ◌-◌, ◌*◌, ◌/◌, ◌%◌, ◌^◌, ◌≤◌, ◌<◌, ◌≡◌, List, if◌then◌else◌, leb, arith,
}
use fluxd_rust.Prelude.Int.{ℤ, pos, leb_ℤ, ◌-ℤ◌, ◌/ℤ◌, pos-sub, pos-/}
use fluxd_rust.Primitives.Bytes.{as_unsigned}
use fluxd_rust.Primitives.Encoding.{new_encoder, into_inner, ◌▷◌, write_hash_le, write_u32_le}
use fluxd_rust.Primitives.OutPoint.{OutPoint, consensus_encode}
use fluxd_rust.Consensus.Params.{ConsensusParams}

unfoldable pub get_slot_number : ℤ → ℕ → ConsensusParams → ℕ
get_slot_number timestamp genesis_time p =
    let time_since_genesis = timestamp -ℤ pos genesis_time in
    if leb_ℤ time_since_genesis (pos 0)
    then 0
    else as_unsigned (2 ^ 64) (time_since_genesis /ℤ p.pon_target_spacing) % 2 ^ 32

-- The hash function of a third-party crate is an argument.
unfoldable pub pon_hash : (List ℕ → List ℕ) → OutPoint → List ℕ → ℕ → List ℕ
pon_hash sha256d collateral prev_block_hash slot = sha256d (
    into_inner (
      new_encoder
      ▷ consensus_encode collateral
      ▷ write_hash_le prev_block_hash
      ▷ write_u32_le slot))

slot_of_elapsed :
    (elapsed genesis spacing : ℕ) (p : ConsensusParams)
    → p.pon_target_spacing ≡ pos spacing
    → get_slot_number (pos (genesis + elapsed)) genesis p
      ≡ (if leb elapsed 0 then 0 else elapsed / spacing % 2 ^ 32)
unfolding get_slot_number
slot_of_elapsed elapsed genesis spacing p e =
    let since : genesis + elapsed - genesis ≡ elapsed = omega arith in
    rw (pos-sub (genesis + elapsed) genesis (omega arith), since, e, pos-/ elapsed spacing)
      (ground arith)

-- With a spacing that is not zero, a time after genesis lies in its slot: not before the slot's
-- beginning and before that of the next, as long as the number of the slot is a u32.
get_slot_number_lem :
    (elapsed genesis spacing : ℕ) (p : ConsensusParams)
    → p.pon_target_spacing ≡ pos spacing
    → 0 < spacing
    → elapsed < 2 ^ 32 * spacing
    → (get_slot_number (pos (genesis + elapsed)) genesis p * spacing ≤ elapsed)
      × (elapsed < get_slot_number (pos (genesis + elapsed)) genesis p * spacing + spacing)
get_slot_number_lem elapsed genesis spacing p e positive small =
    let q = elapsed / spacing in
    let fits : q < 2 ^ 32 = (div-lt_iff_lt-mul positive).1 small in
    let slot : (if leb elapsed 0 then 0 else q % 2 ^ 32) ≡ q = at_genesis fits in
    rw (slot_of_elapsed elapsed genesis spacing p e, slot)
      (omega (arith, div-add-mod elapsed spacing, mod-lt elapsed positive))
  where
    at_genesis :
        elapsed / spacing < 2 ^ 32
        → (if leb elapsed 0 then 0 else elapsed / spacing % 2 ^ 32) ≡ elapsed / spacing
    at_genesis fits = ground (arith, div-add-mod elapsed spacing, mod-lt elapsed positive)
