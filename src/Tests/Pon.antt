-- ===== src/Tests/Pon.antt =====
-- Slots of the proof of node.
use fluxd_rust.Prelude.{◌+◌, ◌≡◌, refl}
use fluxd_rust.Prelude.Int.{pos, ◌-ℤ◌, ◌/ℤ◌}
use fluxd_rust.Pon.Slot.{get_slot_number}
use fluxd_rust.Tests.Consensus.{main_params}

tenth_slot : get_slot_number (pos (1_516_980_000 + 301)) 1_516_980_000 main_params ≡ 10
unfolding get_slot_number ◌-ℤ◌ ◌/ℤ◌
tenth_slot = refl
