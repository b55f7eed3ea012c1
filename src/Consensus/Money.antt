-- ===== src/Consensus/Money.antt =====
-- crates/consensus/src/money.rs
use fluxd_rust.Prelude.{ℕ, ◌*◌, Bool, ◌&&◌}
use fluxd_rust.Prelude.Int.{ℤ, pos, leb_ℤ}

abbrev pub coin : ℕ
coin = 100_000_000

abbrev pub max_money : ℕ
max_money = 440_000_000 * coin

unfoldable pub money_range : ℤ → Bool
money_range value = leb_ℤ (pos 0) value && leb_ℤ value (pos max_money)
