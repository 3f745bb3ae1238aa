-- ===== src/Pipe/Update/Flow.antt =====
-- `ongoing_insts_` is the number of instructions in the core, at every tick.
use ysyx_np_sim.Prelude.{
  ℕ, ◌+◌, ◌≡◌, refl, Bool, true, false, not, ◌&&◌, Option, none, some, ◌>>=◌, leb, if◌then◌else◌,
  u64, Ensures, Ensures-bind, Ensures-if, Ensures-elim,
}
use ysyx_np_sim.Branch.Unit.{BranchUnit}
use ysyx_np_sim.Branch.Unit
use ysyx_np_sim.Branch.Interface.{BranchPred}
use ysyx_np_sim.Pipe.Types.{
  PipeStage, fetch, decode, execute, int_mul_ext, int_div_ext, memory, write_back, get,
}
use ysyx_np_sim.Pipe.Core.{Core, Ports, present, prev_stage_valid, calc_sched}
use ysyx_np_sim.Pipe.Core.Frame.{schedule-InFlight}
use ysyx_np_sim.Pipe.InFlight.{InFlight, not-present}
use ysyx_np_sim.Pipe.InFlight.Moves.{from_memory, from_mul, from_div}
use ysyx_np_sim.Pipe.Fetch.{do_fetch_0}
use ysyx_np_sim.Pipe.Fetch.Flow.{do_fetch_0-InFlight, do_fetch_1-InFlight}
use ysyx_np_sim.Pipe.Decode.Flow.{do_decode-InFlight}
use ysyx_np_sim.Pipe.Execute.Flow.{do_execute-InFlight}
use ysyx_np_sim.Pipe.Execute.Units.{do_mul_ext-InFlight, do_div_ext-InFlight}
use ysyx_np_sim.Pipe.Memory.Flow.{do_memory-InFlight}
use ysyx_np_sim.Pipe.Update.{
  source, write_back_from, do_writeback, stage_handler, run_stage, update_impl,
}

-- What is written back comes from one of three slots.
abbrev IsSource : PipeStage → Type 0
IsSource memory = Unit
IsSource int_mul_ext = Unit
IsSource int_div_ext = Unit
IsSource _ = ⊥

and-first : (a b c : Bool) → (a && b && c) ≡ true → a ≡ true
and-first true b c e = refl
and-first false b c e = cc

module _ {P C : Type 0} where
  source-IsSource : (c : Core P C) (now : ℕ) → Ensures (source c now) IsSource
  unfolding source
  source-IsSource c now =
      go (present c.sim_pipe.in_memory)
        (not (present c.sim_pipe.in_execute)
          && present c.sim_pipe.in_div
          && leb c.div_ready_tick now)
        (not (present c.sim_pipe.in_execute)
          && present c.sim_pipe.in_mul
          && leb c.mul_ready_tick now)
    where
      go :
          (m d u : Bool)
          → Ensures
              (if m
                then some memory
                else if d
                then some int_div_ext
                else if u
                then some int_mul_ext
                else none)
              IsSource
      go true d u = tt
      go false true u = tt
      go false false true = tt
      go false false false = tt

  written-InFlight :
      (c : Core P C) (now : ℕ) (o : Option PipeStage)
      → InFlight c
      → Ensures o IsSource
      → Ensures (write_back_from c now o) InFlight
  unfolding write_back_from
  written-InFlight c now none f s = schedule-InFlight c write_back _ now f
  written-InFlight c now (some memory) f s =
      Ensures-bind InFlight c.sim_pipe.in_memory _
        (λ t e. schedule-InFlight _ write_back (u64 (now + 1)) now (from_memory t f e))
  written-InFlight c now (some int_mul_ext) f s =
      Ensures-bind InFlight c.sim_pipe.in_mul _
        (λ t e. schedule-InFlight _ write_back (u64 (now + 1)) now (from_mul t f e))
  written-InFlight c now (some int_div_ext) f s =
      Ensures-bind InFlight c.sim_pipe.in_div _
        (λ t e. schedule-InFlight _ write_back (u64 (now + 1)) now (from_div t f e))
  written-InFlight c now (some fetch) f s = absurd s
  written-InFlight c now (some decode) f s = absurd s
  written-InFlight c now (some execute) f s = absurd s
  written-InFlight c now (some write_back) f s = absurd s

  do_writeback-InFlight :
      (c : Core P C) (now : ℕ) → InFlight c → Ensures (do_writeback c now) InFlight
  unfolding do_writeback
  do_writeback-InFlight c now f = written-InFlight c now (source c now) f (source-IsSource c now)

module _ {P C : Type 0} (api : BranchPred P) (io : Ports C) where
  handler-InFlight :
      (stage : PipeStage) (c : Core P C) (now : ℕ)
      → InFlight c
      → get stage c.sim_pipe ≡ none
      → Ensures (stage_handler api io stage c now) InFlight
  unfolding stage_handler
  handler-InFlight fetch c now f e = do_fetch_1-InFlight c now f
  handler-InFlight decode c now f e = do_decode-InFlight c now f e
  handler-InFlight execute c now f e = do_execute-InFlight api c now f e
  handler-InFlight int_mul_ext c now f e = do_mul_ext-InFlight api c now f e
  handler-InFlight int_div_ext c now f e = do_div_ext-InFlight api c now f e
  handler-InFlight memory c now f e = do_memory-InFlight io c now f e
  handler-InFlight write_back c now f e = do_writeback-InFlight c now f

  run_stage-InFlight :
      (stage : PipeStage) (now : ℕ) (c : Core P C)
      → InFlight c
      → Ensures (run_stage api io stage now c) InFlight
  unfolding run_stage
  run_stage-InFlight stage now c f =
      Ensures-if InFlight
        (not (present (get stage c.sim_pipe))
          && prev_stage_valid c stage now
          && leb (get stage c.stage_update) now)
        (stage_handler api io stage c now) (some c)
        (λ h.
          handler-InFlight stage c now f (not-present (get stage c.sim_pipe) (and-first _ _ _ h)))
        (λ _. f)

  -- One more stage of the tick.
  then_run :
      (stage : PipeStage) (now : ℕ) (m : Option (Core P C))
      → Ensures m InFlight
      → Ensures (m >>= run_stage api io stage now) InFlight
  then_run stage now m h =
      Ensures-bind InFlight m (run_stage api io stage now)
        (λ c e. run_stage-InFlight stage now c (Ensures-elim InFlight m c h e))

  -- In each tick the core counts every instruction that is fed and not yet written back or flushed:
  -- if `ongoing_insts_` is the number of instructions in the input buffer, the queue and the
  -- stages, it is so after `update_impl`, whatever the predictor and the caches answer.
  pub update_impl-InFlight :
      (c : Core P C) (now : ℕ) → InFlight c → Ensures (update_impl api io c now) InFlight
  unfolding update_impl calc_sched
  update_impl-InFlight c now f =
      let c0 = record c { bpu = Unit.begin_tick c.bpu } in
      let m6 = then_run write_back now (some c0) f in
      let m5 = then_run memory now _ m6 in
      let m4 = then_run int_div_ext now _ m5 in
      let m3 = then_run int_mul_ext now _ m4 in
      let m2 = then_run execute now _ m3 in
      let m1 = then_run decode now _ m2 in
      let m0 = then_run fetch now _ m1 in
      Ensures-bind InFlight _ (λ c1. do_fetch_0 api io c1 now >>= λ c2. some (calc_sched c2 now))
        (λ c1 e1.
          Ensures-bind InFlight (do_fetch_0 api io c1 now) (λ c2. some (calc_sched c2 now))
            (λ c2 e2.
              Ensures-elim InFlight (do_fetch_0 api io c1 now) c2
                (do_fetch_0-InFlight api io c1 now (Ensures-elim InFlight _ c1 m0 e1)) e2))
