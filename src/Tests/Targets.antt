-- ===== src/Tests/Targets.antt =====
-- The next target of crates/pow/src/difficulty.rs.
use fluxd_rust.Prelude.{◌^◌, ◌≡◌, refl, List, [], ◌∷◌, ◌++◌, replicate, none, arith}
use fluxd_rust.Prelude.Int.{pos}
use fluxd_rust.Prelude.Result.{ok}
use fluxd_rust.Consensus.Params.{ConsensusParams}
use fluxd_rust.Pow.Compact.{target_to_compact}
use fluxd_rust.Pow.Headers.{HeaderInfo}
use fluxd_rust.Pow.Averages.{lwma3_target}
use fluxd_rust.Pow.NextWork.{get_next_work_required}
use fluxd_rust.Pow.NextWork.Limits.{HasLimit, IsWithin, get_next_work_required-IsWithin}
use fluxd_rust.Pow.NextWork.Swing.{IsSwing, lwma3_target-IsSwing}
use fluxd_rust.Tests.Consensus.{main_params}

abbrev params : ConsensusParams
params = record main_params { pow_limit = replicate 30 0xff ++ (7 ∷ 0 ∷ []) }

params-HasLimit : HasLimit params
params-HasLimit = (omega arith, refl)

abbrev chain : List HeaderInfo
chain = record { height = pos 300_000; time = pos 1_550_000_000; bits = 0x1d00_ffff } ∷ []

chain_short : get_next_work_required chain none params ≡ ok (target_to_compact params.pow_limit)
unfolding get_next_work_required
chain_short = refl

get_next_work_required-IsWithin_example : IsWithin params (target_to_compact params.pow_limit)
get_next_work_required-IsWithin_example =
    get_next_work_required-IsWithin chain none params (target_to_compact params.pow_limit)
      params-HasLimit chain_short

lwma3_target-IsSwing_example : IsSwing params (2 ^ 200) (lwma3_target (2 ^ 190) (2 ^ 200) params)
lwma3_target-IsSwing_example =
    lwma3_target-IsSwing (2 ^ 190) (2 ^ 200) params params-HasLimit (omega arith)
