-- ===== src/Pipe/Execute/Units.antt =====
-- `do_mul_ext` and `do_div_ext` lose no instruction but those that a flush takes off.
use ysyx_np_sim.Prelude.{
  ℕ, ◌+◌, ◌≡◌, refl, ◌∙◌, ◌||◌, none, some, ◌>>=◌, leb, ◌==◌, u64, Ensures, Ensures-then,
  Ensures-bind, Ensures-if, Ensures-elim,
}
use ysyx_np_sim.Trace.{int_mul_l, int_mul_h, int_div, int_rem}
use ysyx_np_sim.Branch.Interface.{BranchPred}
use ysyx_np_sim.Pipe.Types.{Transaction, PipeStage, decode, int_mul_ext, int_div_ext, write_back}
use ysyx_np_sim.Pipe.Core.{Core, schedule, async_schedule, move, update_reg_time}
use ysyx_np_sim.Pipe.Core.Frame.{
  SameFlow, schedule-SameFlow, async_schedule-SameFlow, update_reg_time-SameFlow,
}
use ysyx_np_sim.Pipe.InFlight.{InFlight}
use ysyx_np_sim.Pipe.InFlight.Moves.{to_mul, to_div}
use ysyx_np_sim.Pipe.Execute.{
  flush_false_btb_hit, mul_lat, div_lat, start_mul, do_mul_ext, start_div, do_div_ext,
}
use ysyx_np_sim.Pipe.Execute.Flow.{Stays, then-Stays, flush_false_btb_hit-Stays}

module _ {P C : Type 0} (api : BranchPred P) where
  -- A unit starts, and `finish` moves the instruction into it.
  started-InFlight :
      (c d : Core P C) (stage : PipeStage) (rd ready now : ℕ) (finish : Core P C → Core P C)
      → Stays c d
      → ((e : Core P C) → Stays c e → InFlight (finish e))
      → Ensures
          (update_reg_time d rd ready now >>= λ c2. schedule c2 stage ready now >>= λ c3.
            async_schedule c3 write_back ready now >>= λ c4. some (finish c4))
          InFlight
  started-InFlight c d stage rd ready now finish s k =
      Ensures-bind InFlight (update_reg_time d rd ready now) _ (λ c2 h2.
        let s2 =
          then-Stays c d c2 s (Ensures-elim _ _ c2 (update_reg_time-SameFlow d rd ready now) h2) in
        Ensures-bind InFlight (schedule c2 stage ready now) _ (λ c3 h3.
          let s3 =
            then-Stays c c2 c3 s2 (Ensures-elim _ _ c3 (schedule-SameFlow c2 stage ready now) h3) in
          Ensures-bind InFlight (async_schedule c3 write_back ready now) (λ c4. some (finish c4))
            (λ c4 h4. k c4 (
              then-Stays c c3 c4 s3
                (Ensures-elim _ _ c4 (async_schedule-SameFlow c3 write_back ready now) h4)))))

  start_mul-InFlight :
      (c : Core P C) (t : Transaction) (now : ℕ)
      → InFlight c
      → c.sim_pipe.in_mul ≡ none
      → Ensures (start_mul api c t now) InFlight
  unfolding start_mul
  start_mul-InFlight c t now f e =
      let ready = u64 (now + mul_lat) in
      Ensures-bind InFlight (flush_false_btb_hit api c t now) _ (λ c1 h.
        let s = Ensures-elim (Stays c) _ c1 (flush_false_btb_hit-Stays api c t now f) h in
        let d = record c1 { mul_ready_tick = ready } in
        let ticked : SameFlow c1 d = record {
          input = refl;
          queue = refl;
          pipe = refl;
          ongoing = refl;
        } in
        started-InFlight c d int_mul_ext t.trace_inst.dst_reg ready now
          (λ c4. move c4 decode int_mul_ext) (then-Stays c c1 d s ticked)
          (λ c4 s4. to_mul s4.flow (s4.mul_slot ∙ e)))

  start_div-InFlight :
      (c : Core P C) (t : Transaction) (now : ℕ)
      → InFlight c
      → c.sim_pipe.in_div ≡ none
      → Ensures (start_div api c t now) InFlight
  unfolding start_div
  start_div-InFlight c t now f e =
      let ready = u64 (now + div_lat) in
      Ensures-bind InFlight (flush_false_btb_hit api c t now) _ (λ c1 h.
        let s = Ensures-elim (Stays c) _ c1 (flush_false_btb_hit-Stays api c t now f) h in
        let d = record c1 { div_ready_tick = ready } in
        let ticked : SameFlow c1 d = record {
          input = refl;
          queue = refl;
          pipe = refl;
          ongoing = refl;
        } in
        started-InFlight c d int_div_ext t.trace_inst.dst_reg ready now
          (λ c4. move c4 decode int_div_ext) (then-Stays c c1 d s ticked)
          (λ c4 s4. to_div s4.flow (s4.div_slot ∙ e)))

  -- A free multiplier or divider takes an instruction without losing any but those that a flush
  -- takes off.
  pub do_mul_ext-InFlight :
      (c : Core P C) (now : ℕ)
      → InFlight c
      → c.sim_pipe.in_mul ≡ none
      → Ensures (do_mul_ext api c now) InFlight
  unfolding do_mul_ext
  do_mul_ext-InFlight c now f e = Ensures-then InFlight (leb c.stage_update.in_decode now) _ (λ _.
      Ensures-bind InFlight c.sim_pipe.in_decode _ (λ t h.
        Ensures-if InFlight (t.trace_inst.ext_op == int_mul_h || t.trace_inst.ext_op == int_mul_l)
          (start_mul api c t now) (some c) (λ _. start_mul-InFlight c t now f e) (λ _. f)))

  pub do_div_ext-InFlight :
      (c : Core P C) (now : ℕ)
      → InFlight c
      → c.sim_pipe.in_div ≡ none
      → Ensures (do_div_ext api c now) InFlight
  unfolding do_div_ext
  do_div_ext-InFlight c now f e = Ensures-then InFlight (leb c.stage_update.in_decode now) _ (λ _.
      Ensures-bind InFlight c.sim_pipe.in_decode _ (λ t h.
        Ensures-if InFlight (t.trace_inst.ext_op == int_div || t.trace_inst.ext_op == int_rem)
          (start_div api c t now) (some c) (λ _. start_div-InFlight c t now f e) (λ _. f)))
