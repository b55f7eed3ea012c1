-- ===== src/Consensus/Rewards/SwapPool.antt =====
-- The payments of the swap pool in rewards.rs.
use fluxd_rust.Prelude.{ℕ}
use fluxd_rust.Prelude.Int.{ℤ, pos, ◌+ℤ◌, ◌*ℤ◌}
use fluxd_rust.Consensus.Params.{SwapPoolParams}

-- The height of the payment number `k`.
abbrev pub payment_height : SwapPoolParams → ℕ → ℤ
payment_height s k = s.start_height +ℤ s.interval *ℤ pos k
