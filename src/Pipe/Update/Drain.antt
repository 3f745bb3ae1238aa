-- ===== src/Pipe/Update/Drain.antt =====
-- A tick of the core leaves alone whether it drains.
use ysyx_np_sim.Prelude.{ℕ, ◌≡◌, Option, none, some, arith, ◌∙◌, >>=-eq-some}
use ysyx_np_sim.Branch.Interface.{BranchPred}
use ysyx_np_sim.Pipe.Types.{
  PipeStage, fetch, decode, execute, int_mul_ext, int_div_ext, memory, write_back,
}
use ysyx_np_sim.Pipe.Core.{Core, Ports, calc_sched}
use ysyx_np_sim.Pipe.Core.Alike.{schedule-Alike}
use ysyx_np_sim.Pipe.Fetch.Alike.{do_fetch_0-Alike, do_fetch_1-Alike}
use ysyx_np_sim.Pipe.Decode.Alike.{do_decode-Alike}
use ysyx_np_sim.Pipe.Memory.Alike.{do_memory-Alike}
use ysyx_np_sim.Pipe.Execute.Drain.{
  do_execute-is_draining, do_mul_ext-is_draining, do_div_ext-is_draining,
}
use ysyx_np_sim.Pipe.Update.{write_back_from, do_writeback, stage_handler, run_stage, update_impl}

module _ {P C : Type 0} where
  write_back_from-is_draining :
      (c d : Core P C) (src : Option PipeStage) (now : ℕ)
      → write_back_from c now src ≡ some d
      → d.is_draining ≡ c.is_draining
  unfolding write_back_from
  write_back_from-is_draining c d none now h = grind (arith, schedule-Alike)
  write_back_from-is_draining c d (some src) now h = grind (arith, schedule-Alike)

  do_writeback-is_draining :
      (c d : Core P C) (now : ℕ) → do_writeback c now ≡ some d → d.is_draining ≡ c.is_draining
  unfolding do_writeback
  do_writeback-is_draining c d now h = grind (arith, write_back_from-is_draining)

module _ {P C : Type 0} (api : BranchPred P) (io : Ports C) where
  stage_handler-is_draining :
      (c d : Core P C) (stage : PipeStage) (now : ℕ)
      → stage_handler api io stage c now ≡ some d
      → d.is_draining ≡ c.is_draining
  unfolding stage_handler
  stage_handler-is_draining c d fetch now h = grind (
    arith,
    do_fetch_1-Alike,
    do_decode-Alike,
    do_execute-is_draining api,
    do_mul_ext-is_draining api,
    do_div_ext-is_draining api,
    do_memory-Alike io,
    do_writeback-is_draining,
  )
  stage_handler-is_draining c d decode now h = grind (
    arith,
    do_fetch_1-Alike,
    do_decode-Alike,
    do_execute-is_draining api,
    do_mul_ext-is_draining api,
    do_div_ext-is_draining api,
    do_memory-Alike io,
    do_writeback-is_draining,
  )
  stage_handler-is_draining c d execute now h = grind (
    arith,
    do_fetch_1-Alike,
    do_decode-Alike,
    do_execute-is_draining api,
    do_mul_ext-is_draining api,
    do_div_ext-is_draining api,
    do_memory-Alike io,
    do_writeback-is_draining,
  )
  stage_handler-is_draining c d int_mul_ext now h = grind (
    arith,
    do_fetch_1-Alike,
    do_decode-Alike,
    do_execute-is_draining api,
    do_mul_ext-is_draining api,
    do_div_ext-is_draining api,
    do_memory-Alike io,
    do_writeback-is_draining,
  )
  stage_handler-is_draining c d int_div_ext now h = grind (
    arith,
    do_fetch_1-Alike,
    do_decode-Alike,
    do_execute-is_draining api,
    do_mul_ext-is_draining api,
    do_div_ext-is_draining api,
    do_memory-Alike io,
    do_writeback-is_draining,
  )
  stage_handler-is_draining c d memory now h = grind (
    arith,
    do_fetch_1-Alike,
    do_decode-Alike,
    do_execute-is_draining api,
    do_mul_ext-is_draining api,
    do_div_ext-is_draining api,
    do_memory-Alike io,
    do_writeback-is_draining,
  )
  stage_handler-is_draining c d write_back now h = grind (
    arith,
    do_fetch_1-Alike,
    do_decode-Alike,
    do_execute-is_draining api,
    do_mul_ext-is_draining api,
    do_div_ext-is_draining api,
    do_memory-Alike io,
    do_writeback-is_draining,
  )

  run_stage-is_draining :
      (c d : Core P C) (stage : PipeStage) (now : ℕ)
      → run_stage api io stage now c ≡ some d
      → d.is_draining ≡ c.is_draining
  unfolding run_stage
  run_stage-is_draining c d stage now h = grind (arith, stage_handler-is_draining)

  -- A tick of the core leaves alone whether it drains.
  pub update_impl-is_draining :
      (c d : Core P C) (now : ℕ) → update_impl api io c now ≡ some d → d.is_draining ≡ c.is_draining
  unfolding update_impl calc_sched
  update_impl-is_draining c d now h =
      let (c7, e7, k7) = >>=-eq-some _ _ h in
      let (c8, e8, k8) = >>=-eq-some _ _ k7 in
      let (c6, e6, k6) = >>=-eq-some _ _ e7 in
      let (c5, e5, k5) = >>=-eq-some _ _ e6 in
      let (c4, e4, k4) = >>=-eq-some _ _ e5 in
      let (c3, e3, k3) = >>=-eq-some _ _ e4 in
      let (c2, e2, k2) = >>=-eq-some _ _ e3 in
      let (c1, e1, k1) = >>=-eq-some _ _ e2 in
      let started : d.is_draining ≡ c8.is_draining = grind arith in
      started
      ∙ (do_fetch_0-Alike api io c7 c8 now e8).0
      ∙ run_stage-is_draining c6 c7 fetch now k6
      ∙ run_stage-is_draining c5 c6 decode now k5
      ∙ run_stage-is_draining c4 c5 execute now k4
      ∙ run_stage-is_draining c3 c4 int_mul_ext now k3
      ∙ run_stage-is_draining c2 c3 int_div_ext now k2
      ∙ run_stage-is_draining c1 c2 memory now k1
      ∙ run_stage-is_draining _ c1 write_back now e1
