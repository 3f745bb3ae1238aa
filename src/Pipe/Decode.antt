-- ===== src/Pipe/Decode.antt =====
-- pipeSim/Pipeline.cc: `do_decode`.
pub mod Hazard
pub mod Flow
pub mod Alike
use ysyx_np_sim.Prelude.{
  ℕ, ◌+◌, min, max, Bool, false, ◌&&◌, ◌||◌, Option, none, some, ◌>>=◌, if◌then◌else◌, ltb, leb,
  ◌==◌, get_elem?, set_at, u64,
}
use ysyx_np_sim.Trace.{TraceInst, is_set}
use ysyx_np_sim.Pipe.Types.{Transaction, stall_no_inst, br_mispred, raw, fetch, decode, inf_time}
use ysyx_np_sim.Pipe.Core.{Core, present, waits, schedule, set_slot, move, stall, ready_time}

-- The instruction is there and writes to the register.
abbrev pub writes : Option Transaction → ℕ → Bool
writes none rd = false
writes (some t) rd = t.trace_inst.dst_reg == rd

-- The time, or the next tick if it is past.
abbrev pub clamp : ℕ → ℕ → ℕ
clamp ready now = if leb ready now then u64 (now + 1) else ready

module _ {P C : Type 0} where
  -- An instruction that waits for memory keeps its own cause.
  abbrev pub stall_unless_lsu : Core P C → (Core P C → Core P C) → Core P C
  stall_unless_lsu c f = if waits c.sim_pipe.in_execute then c else f c

  blocked : Core P C → ℕ → ℕ → Option (Core P C)
  blocked c when now = schedule (stall_unless_lsu c (λ d. stall d raw now)) decode when now

  -- When the multiplication or the division in flight ends.
  m_ext_ready : Core P C → ℕ
  m_ext_ready c =
      let m = if present c.sim_pipe.in_mul then min inf_time c.mul_ready_tick else inf_time in
      if present c.sim_pipe.in_div then min m c.div_ready_tick else m

  -- A placeholder of a wrong path takes one slot and is dropped.
  drop : Core P C → ℕ → Option (Core P C)
  drop c now =
      let c1 = if c.tally.stall.in_br_recovery then stall c br_mispred now else c in
      schedule (set_slot c1 fetch none) decode (u64 (now + 1)) now

  pass : Core P C → TraceInst → ℕ → ℕ → Option (Core P C)
  pass c inst ready now = do
    let c1 = stall_unless_lsu c (λ d. stall d stall_no_inst now)
    c2 ← schedule c1 decode (u64 (max now ready + 1)) now
    let claimed = set_at c2.reg_ready inst.dst_reg inf_time
    regs ← if is_set inst.dst_reg then claimed else some c2.reg_ready
    some (move (record c2 { reg_ready = regs }) fetch decode)

  -- Two writes of one register keep their order.
  check_waw : Core P C → TraceInst → ℕ → ℕ → Option (Core P C)
  unfolding blocked pass
  check_waw c inst ready now =
      let rd = inst.dst_reg in
      let waits_waw = get_elem? c.reg_ready rd >>= λ w. blocked c (clamp w now) now in
      let passed = pass c inst ready now in
      if is_set rd && (writes c.sim_pipe.in_mul rd || writes c.sim_pipe.in_div rd)
      then waits_waw
      else passed

  check_raw : Core P C → TraceInst → ℕ → Option (Core P C)
  unfolding check_waw
  check_raw c inst now = do
    ready ← ready_time c inst
    let waits_raw = blocked c ready now
    let checked = check_waw c inst ready now
    if ready == inf_time || ltb now ready then waits_raw else checked

  decode_inst : Core P C → TraceInst → ℕ → Option (Core P C)
  unfolding check_raw m_ext_ready
  decode_inst c inst now =
      let waits_unit = blocked c (clamp (m_ext_ready c) now) now in
      let checked = check_raw c inst now in
      if is_set inst.ext_op && (present c.sim_pipe.in_mul || present c.sim_pipe.in_div)
      then waits_unit
      else checked

  pub do_decode : Core P C → ℕ → Option (Core P C)
  unfolding drop decode_inst
  do_decode c now = do
    t ← c.sim_pipe.in_fetch
    let dropped = drop c now
    let decoded = decode_inst c t.trace_inst now
    if t.is_wrong_path then dropped else decoded
