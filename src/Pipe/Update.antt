-- ===== src/Pipe/Update.antt =====
-- pipeSim/Pipeline.cc: `do_writeback`, and `update_impl`, which runs the stages.
pub mod Flow
pub mod Drain
use ysyx_np_sim.Prelude.{
  ℕ, ◌+◌, min, max, not, ◌&&◌, Option, none, some, ◌>>=◌, if◌then◌else◌, leb, u64,
}
use ysyx_np_sim.Branch.Unit
use ysyx_np_sim.Branch.Interface.{BranchPred}
use ysyx_np_sim.Pipe.Types.{
  PipeStage, fetch, decode, execute, int_mul_ext, int_div_ext, memory, write_back, inf_time, sub64,
  get,
}
use ysyx_np_sim.Pipe.Stall
use ysyx_np_sim.Pipe.Core.{
  Core, Ports, present, waits, schedule, set_slot, prev_stage_valid, calc_sched,
}
use ysyx_np_sim.Pipe.Fetch.{do_fetch_0, do_fetch_1}
use ysyx_np_sim.Pipe.Decode.{do_decode}
use ysyx_np_sim.Pipe.Execute.{do_execute, do_mul_ext, do_div_ext}
use ysyx_np_sim.Pipe.Memory.{do_memory}

module _ {P C : Type 0} where
  -- The stage whose instruction is written back.
  unfoldable pub source : Core P C → ℕ → Option PipeStage
  source c now =
      let no_alu = not (present c.sim_pipe.in_execute) in
      if present c.sim_pipe.in_memory
      then some memory
      else if no_alu && present c.sim_pipe.in_div && leb c.div_ready_tick now
      then some int_div_ext
      else if no_alu && present c.sim_pipe.in_mul && leb c.mul_ready_tick now
      then some int_mul_ext
      else none

  -- When to try again.
  retry_time : Core P C → ℕ
  retry_time c =
      let d = if present c.sim_pipe.in_div then min inf_time c.div_ready_tick else inf_time in
      if present c.sim_pipe.in_mul then min d c.mul_ready_tick else d

  write_back_from : Core P C → ℕ → Option PipeStage → Option (Core P C)
  unfolding retry_time
  write_back_from c now none = schedule c write_back (max (retry_time c) (u64 (now + 1))) now
  write_back_from c now (some src) = do
    t ← get src c.sim_pipe
    let c1 = record c {
      ongoing_insts = sub64 c.ongoing_insts 1;
      tally = Stall.commit c.tally now t.br_mispred (waits c.sim_pipe.in_execute);
    }
    schedule (set_slot c1 src none) write_back (u64 (now + 1)) now

  pub do_writeback : Core P C → ℕ → Option (Core P C)
  unfolding write_back_from
  do_writeback c now = write_back_from c now (source c now)

module _ {P C : Type 0} (api : BranchPred P) (io : Ports C) where
  -- `stage_handler_.at(stage)`
  pub stage_handler : PipeStage → Core P C → ℕ → Option (Core P C)
  stage_handler fetch c now = do_fetch_1 c now
  stage_handler decode c now = do_decode c now
  stage_handler execute c now = do_execute api c now
  stage_handler int_mul_ext c now = do_mul_ext api c now
  stage_handler int_div_ext c now = do_div_ext api c now
  stage_handler memory c now = do_memory io c now
  stage_handler write_back c now = do_writeback c now

  pub run_stage : PipeStage → ℕ → Core P C → Option (Core P C)
  unfolding stage_handler
  run_stage stage now c =
      let handled = stage_handler stage c now in
      if not (present (get stage c.sim_pipe))
        && prev_stage_valid c stage now
        && leb (get stage c.stage_update) now
      then handled
      else some c

  -- The stages run from the last to the first.
  unfoldable pub update_impl : Core P C → ℕ → Option (Core P C)
  update_impl c now =
      some (record c { bpu = Unit.begin_tick c.bpu })
      >>= run_stage write_back now
      >>= run_stage memory now
      >>= run_stage int_div_ext now
      >>= run_stage int_mul_ext now
      >>= run_stage execute now
      >>= run_stage decode now
      >>= run_stage fetch now
      >>= λ c1. do_fetch_0 api io c1 now >>= λ c2. some (calc_sched c2 now)
