-- ===== src/Pipe/Core/Frame.antt =====
-- What the schedule and the register times leave alone.
use ysyx_np_sim.Prelude.{
  ℕ, ◌≡◌, refl, ◌∙◌, ◌&&◌, ◌||◌, Option, none, some, leb, ◌==◌, if◌then◌else◌, Ensures,
  Ensures-then, Ensures-bind, Ensures-if, Ensures-elim, Ensures-all, get_elem?, set_at,
}
use ysyx_np_sim.Trace.{TraceInst, is_set}
use ysyx_np_sim.Pipe.Types.{Transaction, PipeStage, decode, inf_time}
use ysyx_np_sim.Pipe.Core.{
  Core, schedule, async_schedule, ready_time, retry_decode, wake_decode, update_reg_time,
}
use ysyx_np_sim.Pipe.InFlight.{InFlight}

module _ {P C : Type 0} where
  -- The same instructions in the same places.
  pub record SameFlow (c d : Core P C) : Type 0 where
    pub input : d.input_buffer ≡ c.input_buffer
    pub queue : d.fetch_queue ≡ c.fetch_queue
    pub pipe : d.sim_pipe ≡ c.sim_pipe
    pub ongoing : d.ongoing_insts ≡ c.ongoing_insts

  pub same_flow : (c : Core P C) → SameFlow c c
  same_flow c = record { input = refl; queue = refl; pipe = refl; ongoing = refl }

  pub SameFlow-trans : (c d e : Core P C) → SameFlow c d → SameFlow d e → SameFlow c e
  SameFlow-trans c d e s t = record {
    input = t.input ∙ s.input;
    queue = t.queue ∙ s.queue;
    pipe = t.pipe ∙ s.pipe;
    ongoing = t.ongoing ∙ s.ongoing;
  }

  pub SameFlow-InFlight : (c d : Core P C) → SameFlow c d → InFlight c → InFlight d
  SameFlow-InFlight c d s f = rw (s.input, s.queue, s.pipe, s.ongoing) f

  pub schedule-SameFlow :
      (c : Core P C) (stage : PipeStage) (when now : ℕ)
      → Ensures (schedule c stage when now) (SameFlow c)
  unfolding schedule
  schedule-SameFlow c stage when now =
      Ensures-then (SameFlow c) (leb now when) _
        (λ _. record { input = refl; queue = refl; pipe = refl; ongoing = refl })

  pub async_schedule-SameFlow :
      (c : Core P C) (stage : PipeStage) (when now : ℕ)
      → Ensures (async_schedule c stage when now) (SameFlow c)
  unfolding async_schedule
  async_schedule-SameFlow c stage when now =
      Ensures-bind (SameFlow c) (schedule c stage when now) _ (λ d e.
        let s = Ensures-elim (SameFlow c) _ d (schedule-SameFlow c stage when now) e in
        record { input = s.input; queue = s.queue; pipe = s.pipe; ongoing = s.ongoing })

  retry_decode-SameFlow :
      (c : Core P C) (inst : TraceInst) (now : ℕ) → Ensures (retry_decode c inst now) (SameFlow c)
  unfolding retry_decode
  retry_decode-SameFlow c inst now =
      Ensures-bind (SameFlow c) (ready_time c inst) _ (λ ready e. schedule-SameFlow c decode _ now)

  wake_decode-SameFlow :
      (c : Core P C) (slot : Option Transaction) (now : ℕ)
      → Ensures (wake_decode c slot now) (SameFlow c)
  unfolding wake_decode
  wake_decode-SameFlow c none now = same_flow c
  wake_decode-SameFlow c (some t) now =
      Ensures-if (SameFlow c)
        (c.stage_update.in_decode == inf_time
          && (is_set t.trace_inst.src_reg0 || is_set t.trace_inst.src_reg1))
        (retry_decode c t.trace_inst now) (some c) (λ _. retry_decode-SameFlow c t.trace_inst now)
        (λ _. same_flow c)

  pub update_reg_time-SameFlow :
      (c : Core P C) (rd when now : ℕ) → Ensures (update_reg_time c rd when now) (SameFlow c)
  unfolding update_reg_time
  update_reg_time-SameFlow c rd when now =
      Ensures-bind (SameFlow c) (if is_set rd then set_at c.reg_ready rd when else some c.reg_ready)
        _
        (λ regs e.
          let c0 = record c { reg_ready = regs } in
          Ensures-bind (SameFlow c) (wake_decode c0 c.sim_pipe.in_fetch now) _ (λ d k.
            let s =
              Ensures-elim (SameFlow c0) _ d (wake_decode-SameFlow c0 c.sim_pipe.in_fetch now) k in
            Ensures-bind (SameFlow c) (get_elem? d.reg_ready 0) _ (λ r0 l.
              Ensures-then (SameFlow c) (r0 == 0) (some d) (λ _. record {
                input = s.input;
                queue = s.queue;
                pipe = s.pipe;
                ongoing = s.ongoing;
              }))))

  pub schedule-InFlight :
      (d : Core P C) (stage : PipeStage) (when now : ℕ)
      → InFlight d
      → Ensures (schedule d stage when now) InFlight
  schedule-InFlight d stage when now f =
      Ensures-all (schedule d stage when now)
        (λ e h. SameFlow-InFlight d e (Ensures-elim _ _ e (schedule-SameFlow d stage when now) h) f)

  pub async-InFlight :
      (d : Core P C) (stage : PipeStage) (when now : ℕ)
      → InFlight d
      → Ensures (async_schedule d stage when now) InFlight
  async-InFlight d stage when now f = Ensures-all (async_schedule d stage when now) (λ e h.
      SameFlow-InFlight d e (Ensures-elim _ _ e (async_schedule-SameFlow d stage when now) h) f)
