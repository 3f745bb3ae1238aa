-- ===== src/Pipe/Reach.antt =====
-- What becomes of a core: the calls that main.cc and the caches make of it, in any order and at any
-- ticks, over any branch predictor and any caches.
use ysyx_np_sim.Prelude.{
  ℕ, ◌+◌, ◌^◌, ◌<◌, ◌≡◌, refl, Bool, true, Option, none, some, List, [], arith, Ensures-elim,
}
use ysyx_np_sim.Mem.Types.{CpuTrans, AckTrans}
use ysyx_np_sim.Trace.{TraceInst}
use ysyx_np_sim.Branch.Unit.{BranchUnit}
use ysyx_np_sim.Branch.Interface.{BranchPred}
use ysyx_np_sim.Pipe.Types.{Transaction}
use ysyx_np_sim.Pipe.Ifq
use ysyx_np_sim.Pipe.Ifq.Queue.{Represents, init-Represents}
use ysyx_np_sim.Pipe.Core.{Core, Ports, is_finished, set_draining, reset_stats}
use ysyx_np_sim.Pipe.Core
use ysyx_np_sim.Pipe.InFlight.{
  InFlight, CountedSlot, RealSlot, weight, weight-counted, in_queue, in_pipe,
}
use ysyx_np_sim.Pipe.Fetch.{feed_inst}
use ysyx_np_sim.Pipe.Fetch.Flow.{feed_inst-InFlight}
use ysyx_np_sim.Pipe.Respond.{recv_mem_resp, ack_mem_avail}
use ysyx_np_sim.Pipe.Respond.Flow.{recv_mem_resp-InFlight, ack_mem_avail-InFlight}
use ysyx_np_sim.Pipe.Update.{update_impl}
use ysyx_np_sim.Pipe.Update.Flow.{update_impl-InFlight}

-- The caches are in any state at each call.
pub data Reachable {P C : Type 0} (api : BranchPred P) (io : Ports C) : Core P C → Type 0 where
  started :
      (bpu : BranchUnit P) (ports : C) (has_nc : Bool) (ifq_size mmio_lat unset : ℕ)
      → 0 < ifq_size
      → ifq_size + 8 < 2 ^ 64
      → Reachable api io (Core.init bpu ports has_nc ifq_size mmio_lat unset)
  updated :
      (c d : Core P C) (now : ℕ)
      → Reachable api io c
      → update_impl api io c now ≡ some d
      → Reachable api io d
  fed :
      (c d : Core P C) (inst : TraceInst) (now : ℕ)
      → Reachable api io c
      → feed_inst api io c inst now ≡ some d
      → Reachable api io d
  answered :
      (c d : Core P C) (resp : CpuTrans) (now : ℕ)
      → Reachable api io c
      → recv_mem_resp c resp now ≡ some d
      → Reachable api io d
  acknowledged :
      (c d : Core P C) (ack : AckTrans) (now : ℕ)
      → Reachable api io c
      → ack_mem_avail c ack now ≡ some d
      → Reachable api io d
  moved_on :
      (c : Core P C) (ports : C)
      → Reachable api io c
      → Reachable api io (record c { ports = ports })
  draining : (c : Core P C) → Reachable api io c → Reachable api io (set_draining c)
  windowed : (c : Core P C) (now : ℕ) → Reachable api io c → Reachable api io (reset_stats c now)

module _ {P C : Type 0} (api : BranchPred P) (io : Ports C) where
  -- In every core that the calls lead to, `ongoing_insts_` is the number of instructions in the
  -- input buffer, the queue and the stages.
  pub Reachable-InFlight : (c : Core P C) → Reachable api io c → InFlight c
  unfolding Core.init Core.set_draining Core.reset_stats Ifq.init
  Reachable-InFlight _ (started bpu ports has_nc ifq_size mmio_lat unset h room) = record {
    entries = [];
    queue = init-Represents ifq_size h;
    fresh = tt;
    fetch_fresh = tt;
    input_real = tt;
    decode_counted = tt;
    execute_counted = tt;
    mul_counted = tt;
    div_counted = tt;
    memory_counted = tt;
    number = refl;
    room = room;
  }
  Reachable-InFlight _ (updated c d now r e) =
      Ensures-elim InFlight _ d (update_impl-InFlight api io c now (Reachable-InFlight c r)) e
  Reachable-InFlight _ (fed c d inst now r e) =
      Ensures-elim InFlight _ d (feed_inst-InFlight api io c inst now (Reachable-InFlight c r)) e
  Reachable-InFlight _ (answered c d resp now r e) =
      Ensures-elim InFlight _ d (recv_mem_resp-InFlight c resp now (Reachable-InFlight c r)) e
  Reachable-InFlight _ (acknowledged c d ack now r e) =
      Ensures-elim InFlight _ d (ack_mem_avail-InFlight c ack now (Reachable-InFlight c r)) e
  Reachable-InFlight _ (moved_on c ports r) = Reachable-InFlight c r
  Reachable-InFlight _ (draining c r) = Reachable-InFlight c r
  Reachable-InFlight _ (windowed c now r) = Reachable-InFlight c r

counted-none : (slot : Option Transaction) → CountedSlot slot → weight slot ≡ 0 → slot ≡ none
counted-none none h e = refl
counted-none (some t) h e = absurd (omega (arith, weight-counted t h, e))

real-none : (slot : Option Transaction) → RealSlot slot → weight slot ≡ 0 → slot ≡ none
real-none none h e = refl
real-none (some t) h e = absurd (omega (arith, weight-counted t h.0, e))

module _ {P C : Type 0} (api : BranchPred P) (io : Ports C) where
  -- When a core that the calls lead to says that it is finished, no instruction is left in the input
  -- buffer or behind Fetch, and what is left in the queue and in Fetch does not count.
  pub is_finished-empty :
      (c : Core P C)
      → Reachable api io c
      → is_finished c ≡ true
      → (c.input_buffer ≡ none)
        × (c.sim_pipe.in_decode ≡ none)
        × (c.sim_pipe.in_execute ≡ none)
        × (c.sim_pipe.in_mul ≡ none)
        × (c.sim_pipe.in_div ≡ none)
        × (c.sim_pipe.in_memory ≡ none)
        × (weight c.sim_pipe.in_fetch ≡ 0)
        × ((entries : List Transaction) × Represents c.fetch_queue entries × (in_queue entries ≡ 0))
  is_finished-empty c r e =
      let f = Reachable-InFlight api io c r in
      let zero : c.ongoing_insts ≡ 0 = ground arith in
      let none_left : weight c.input_buffer + in_queue f.entries + in_pipe c.sim_pipe ≡ 0 =
        omega (arith, zero, f.number) in
      (
        real-none c.input_buffer f.input_real (omega arith),
        counted-none c.sim_pipe.in_decode f.decode_counted (omega arith),
        counted-none c.sim_pipe.in_execute f.execute_counted (omega arith),
        counted-none c.sim_pipe.in_mul f.mul_counted (omega arith),
        counted-none c.sim_pipe.in_div f.div_counted (omega arith),
        counted-none c.sim_pipe.in_memory f.memory_counted (omega arith),
        omega arith,
        (f.entries, f.queue, omega arith),
      )
