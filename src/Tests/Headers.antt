-- ===== src/Tests/Headers.antt =====
-- Chains of headers.
use fluxd_rust.Prelude.{◌≡◌, refl, [], ◌∷◌}
use fluxd_rust.Prelude.Int.{pos, ◌+ℤ◌}
use fluxd_rust.Prelude.Result.{err}
use fluxd_rust.Pow.Headers.{HeaderInfo, ensure_contiguous, non_contiguous}

abbrev header_7 : HeaderInfo
header_7 = record { height = pos 7; time = pos 100; bits = 0x2007_ffff }

abbrev header_8 : HeaderInfo
header_8 = record { height = pos 8; time = pos 90; bits = 0x2007_ffff }

gap : ensure_contiguous header_7 (header_8 ∷ header_7 ∷ []) ≡ err non_contiguous
unfolding ensure_contiguous ◌+ℤ◌
gap = refl
