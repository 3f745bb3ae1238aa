-- ===== src/Branch/Unit/Tests.antt =====
-- A unit with the BTFNT predictor and a BTB of four entries in SRAM.
use ysyx_np_sim.Prelude.{
  ◌≢◌, ◌≡◌, refl, true, false, ◌==◌, some, Returns, if◌then◌else◌, incr, arith,
}
use ysyx_np_sim.Branch.Types.{no_result}
use ysyx_np_sim.Branch.Interface.{bimodal}
use ysyx_np_sim.Branch.Bimodal.{Bimodal}
use ysyx_np_sim.Branch.Bimodal.Tests.{leaning, leaning-predict}
use ysyx_np_sim.Branch.Btb.Tests.{empty, empty-lookup, empty-has_rw_conflict, empty-num_entries}
use ysyx_np_sim.Branch.Unit.{BranchUnit, init, judge, begin_tick, predict, btb_index}
use ysyx_np_sim.Branch.Unit.Judge.{judge-fetch}
use ysyx_np_sim.Branch.Unit.Conflict.{predict-conflict}

-- A write to entry 1 in this tick.
abbrev unit : BranchUnit Bimodal
unit = record (init leaning (some empty) 0) { btb_written_this_tick = true; btb_written_idx = 1 }

judge-fetch_example :
    (judge unit true 0x80 no_result).0
    ≡ ((if false then 0 else 0x44) == (if true then 0x80 else 0x44))
judge-fetch_example =
    judge-fetch unit true 0x80 0x44 no_result (λ e. ground arith) (λ e. ground arith)

other : btb_index unit.btb 0x48 ≢ 1
unfolding init
other e = let z : btb_index unit.btb 0x48 ≡ 2 = rw empty-num_entries refl in omega (arith, e, z)

predict-conflict_example : Returns (predict bimodal (begin_tick unit) 0x48) (λ r.
    (r.0.pred_taken ≡ true)
    × (r.0.pred_target ≡ 0)
    × (r.0.will_redirect ≡ false)
    × (r.1.bpu ≡ record unit.bpu { accesses = 1 })
    × (r.1.stats.accesses ≡ incr unit.stats.accesses))
unfolding init bimodal
predict-conflict_example =
    predict-conflict bimodal unit 0x48 0
      (record { taken = true; bht_cnt = 2; ghr_snap = 0; tage_overrode_bimodal = false })
      (record unit.bpu { accesses = 1 }) refl empty-has_rw_conflict other empty-lookup
      leaning-predict
