-- ===== src/Pipe/Memory.antt =====
-- pipeSim/Pipeline.cc: `do_memory` and `send_lsu_req`.
pub mod Cacheable
pub mod Flow
pub mod Alike
mod Tests
use ysyx_np_sim.Prelude.{
  ℕ, ◌+◌, bit_and, Bool, true, false, not, ◌&&◌, Option, some, ◌>>=◌, if◌then◌else◌, ◌==◌, u64,
}
use ysyx_np_sim.Trace.{TraceInst, mem_none, mem_load, mem_store}
use ysyx_np_sim.Pipe.Types.{Transaction, lsu_stall, execute, memory, inf_time, is_cacheable_addr}
use ysyx_np_sim.Pipe.Core.{
  Core, Ports, Port, dmem, dmem_nc, schedule, set_slot, move, stall, update_reg_time,
}
use ysyx_np_sim.Pipe.Respond.{recv_all}

-- `addr & ~0x3U`
abbrev pub aligned : ℕ → ℕ
aligned addr = bit_and addr 0xfffffffc

-- The access has no port: the core models its latency itself.
abbrev pub is_legacy : Bool → TraceInst → Bool
is_legacy has_nc inst =
    not (inst.mem_op == mem_none) && not (is_cacheable_addr inst.mem_addr) && not has_nc

abbrev pub lsu_port : Bool → TraceInst → Port
lsu_port has_nc inst =
    if not (inst.mem_op == mem_none) && not (is_cacheable_addr inst.mem_addr) && has_nc
    then dmem_nc
    else dmem

module _ {P C : Type 0} (io : Ports C) where
  send_write : Core P C → Port → ℕ → ℕ → ℕ → ℕ → Option (Core P C)
  send_write c port addr word strb now = do
    (ports, resps) ← io.write_req c.ports port addr word strb now
    recv_all (record c { ports = ports }) resps now

  send_read : Core P C → Port → ℕ → ℕ → Option (Core P C)
  send_read c port addr now = do
    ports ← io.read_req c.ports port addr now
    some (record c { ports = ports })

  pub send_lsu_req : Core P C → Port → ℕ → ℕ → ℕ → Bool → ℕ → Option (Core P C)
  unfolding send_write send_read
  send_lsu_req c port addr word strb is_write now = do
    let (r_ready, w_ready) = io.is_ready c.ports port
    c1 ← schedule c memory inf_time now
    t ← c1.sim_pipe.in_execute
    let c2 = set_slot c1 execute (some (record t { wait_mem = true }))
    let written = send_write c2 port (aligned addr) word strb now
    let reads = send_read c2 port (aligned addr) now
    let sent = if is_write then written else reads
    if (if is_write then w_ready else r_ready) then sent else some c1

  -- The access through no port has ended.
  end_legacy : Core P C → Transaction → ℕ → Option (Core P C)
  end_legacy c t now = do
    let c1 = set_slot c execute (some (record t { wait_mem = false }))
    let loaded = update_reg_time c1 t.trace_inst.dst_reg (u64 (now + 2)) now
    c2 ← if t.trace_inst.mem_op == mem_load then loaded else some c1
    c3 ← schedule c2 memory (u64 (now + 1)) now
    some (move c3 execute memory)

  start_legacy : Core P C → Transaction → ℕ → Option (Core P C)
  start_legacy c t now =
      let c1 = set_slot (stall c lsu_stall now) execute (some (record t { wait_mem = true })) in
      schedule c1 memory (u64 (now + c.mmio_lat)) now

  load : Core P C → TraceInst → ℕ → Option (Core P C)
  unfolding send_lsu_req
  load c inst now =
      send_lsu_req (stall c lsu_stall now) (lsu_port c.has_nc inst) inst.mem_addr 0xbad 0xf false
        now

  store : Core P C → TraceInst → ℕ → Option (Core P C)
  unfolding send_lsu_req
  store c inst now = do
    c1 ←
        send_lsu_req (stall c lsu_stall now) (lsu_port c.has_nc inst) inst.mem_addr 0xbad 0xf true
          now
    schedule c1 memory inf_time now

  pass_through : Core P C → ℕ → Option (Core P C)
  pass_through c now = do c1 ← schedule c memory (u64 (now + 1)) now; some (move c1 execute memory)

  pub do_memory : Core P C → ℕ → Option (Core P C)
  unfolding end_legacy start_legacy load store pass_through
  do_memory c now = do
    t ← c.sim_pipe.in_execute
    let inst = t.trace_inst
    let legacy = is_legacy c.has_nc inst
    let ended = end_legacy c t now
    let idle = schedule c memory inf_time now
    let started = start_legacy c t now
    let loads = load c inst now
    let stores = store c inst now
    let passed = pass_through c now
    let waiting = if legacy then ended else idle
    let moved = if inst.mem_op == mem_store then stores else passed
    let ready = if legacy then started else if inst.mem_op == mem_load then loads else moved
    if t.wait_mem then waiting else ready
