-- ===== src/Pipe/Respond.antt =====
-- pipeSim/Pipeline.cc: what the core does on the answers of the caches.
pub mod Flow
pub mod Alike
use ysyx_np_sim.Prelude.{
  ℕ, ◌+◌, Bool, true, false, not, ◌&&◌, ◌||◌, Option, none, some, List, [], ◌∷◌, ◌>>=◌, ◌>>◌,
  assert, if◌then◌else◌, ltb, ◌==◌, get_elem?, set_at, u64,
}
use ysyx_np_sim.Mem.Types.{MemRwOpt, read, write, CpuTrans, AckTrans}
use ysyx_np_sim.Trace.{mem_none, mem_load}
use ysyx_np_sim.Pipe.Types.{Transaction, lsu_stall, raw, fetch, execute, memory}
use ysyx_np_sim.Pipe.Ifq.{Ifq}
use ysyx_np_sim.Pipe.Ifq
use ysyx_np_sim.Pipe.Core.{
  Core, present, async_schedule, set_slot, move, stall, ready_time, update_reg_time,
}

-- `write` is one of the two operations.
abbrev pub is_write : MemRwOpt → Bool
is_write read = false
is_write write = true

module _ {P C : Type 0} where
  -- The first entry of the queue that waits for memory has its word.
  wake_entry : Core P C → ℕ → Option (Core P C)
  wake_entry c now = do
    found ← Ifq.find_if_ptr (λ t. t.wait_mem) c.fetch_queue
    slot ← found
    entry ← get_elem? c.fetch_queue.buf slot
    t ← entry
    buf ← set_at c.fetch_queue.buf slot (some (record t { wait_mem = false }))
    async_schedule (record c { fetch_queue = record c.fetch_queue { buf = buf } }) fetch
        (u64 (now + 1)) now

  answer : Core P C → List Bool → ℕ → Option (Core P C)
  unfolding wake_entry
  answer c [] now = none
  answer c (orphan ∷ rest) now =
      let c1 = record c { fetch_state = record c.fetch_state { resp_is_orphan = rest } } in
      let woken = wake_entry c1 now in if orphan then some c1 else woken

  pub handle_ifu_resp : Core P C → ℕ → Option (Core P C)
  unfolding answer
  handle_ifu_resp c now = answer c c.fetch_state.resp_is_orphan now

  -- Decode may be blocked by the load that ends.
  check_raw : Core P C → Option Transaction → ℕ → Option (Core P C)
  check_raw c none now = some c
  check_raw c (some t) now = do
    ready ← ready_time c t.trace_inst
    some (if ltb now ready then stall c raw now else c)

  pub handle_lsu_resp : Core P C → ℕ → Option (Core P C)
  unfolding check_raw
  handle_lsu_resp c now = do
    t ← c.sim_pipe.in_execute
    assert t.wait_mem
    assert (not (present c.sim_pipe.in_memory))
    let c1 = set_slot c execute (some (record t { wait_mem = false }))
    let loaded = update_reg_time c1 t.trace_inst.dst_reg (u64 (now + 2)) now
    c2 ← if t.trace_inst.mem_op == mem_load then loaded else some c1
    let c3 = stall c2 lsu_stall now
    c4 ← check_raw c3 c3.sim_pipe.in_fetch now
    c5 ← async_schedule c4 memory (u64 (now + 1)) now
    some (move c5 execute memory)

  unfoldable pub recv_mem_resp : Core P C → CpuTrans → ℕ → Option (Core P C)
  recv_mem_resp c resp now =
      let from_ifu = assert (not (is_write resp.mop)) >> handle_ifu_resp c now in
      let from_lsu = handle_lsu_resp c now in
      if resp.id == 0 then from_ifu else if resp.id == 1 || resp.id == 2 then from_lsu else none

  retry_memory : Core P C → Option Transaction → ℕ → Option (Core P C)
  retry_memory c none now = some c
  retry_memory c (some t) now =
      let retried = async_schedule c memory now now in
      if not t.wait_mem && not (t.trace_inst.mem_op == mem_none) then retried else some c

  pub ack_mem_avail : Core P C → AckTrans → ℕ → Option (Core P C)
  unfolding retry_memory
  ack_mem_avail c ack now =
      let to_ifu = async_schedule c fetch now now in
      let to_lsu = retry_memory c c.sim_pipe.in_execute now in
      if ack.id == 0 then to_ifu else if ack.id == 1 || ack.id == 2 then to_lsu else none

  -- The responses that a cache sent while it took a request.
  pub recv_all : Core P C → List CpuTrans → ℕ → Option (Core P C)
  recv_all c [] now = some c
  recv_all c (resp ∷ resps) now = do c1 ← recv_mem_resp c resp now; recv_all c1 resps now
