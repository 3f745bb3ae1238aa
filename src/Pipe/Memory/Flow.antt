-- ===== src/Pipe/Memory/Flow.antt =====
-- `do_memory` loses no instruction.
use ysyx_np_sim.Prelude.{
  ℕ, ◌+◌, ◌≡◌, refl, ◌∙◌, ap, Bool, true, false, none, some, ◌>>=◌, ◌==◌, if◌then◌else◌, u64,
  Ensures, Ensures-bind, Ensures-if, Ensures-elim,
}
use ysyx_np_sim.Trace.{mem_load, mem_store}
use ysyx_np_sim.Pipe.Types.{Transaction, lsu_stall, execute, memory, inf_time}
use ysyx_np_sim.Pipe.Core.{Core, Ports, Port, schedule, set_slot, move, stall, update_reg_time}
use ysyx_np_sim.Pipe.Core.Frame.{
  schedule-InFlight, SameFlow, same_flow, SameFlow-InFlight, schedule-SameFlow,
  update_reg_time-SameFlow,
}
use ysyx_np_sim.Pipe.Respond.{recv_all}
use ysyx_np_sim.Pipe.Respond.Flow.{recv_all-InFlight}
use ysyx_np_sim.Pipe.InFlight.{InFlight}
use ysyx_np_sim.Pipe.InFlight.Moves.{to_memory}
use ysyx_np_sim.Pipe.InFlight.Slots.{set_executed}
use ysyx_np_sim.Pipe.Memory.{
  aligned, is_legacy, lsu_port, send_write, send_read, send_lsu_req, end_legacy, start_legacy, load,
  store, pass_through, do_memory,
}

module _ {P C : Type 0} where
  stall_flow : (c : Core P C) (now : ℕ) → SameFlow c (stall c lsu_stall now)
  stall_flow c now = record { input = refl; queue = refl; pipe = refl; ongoing = refl }

  -- The instruction passes on into a free slot.
  passed-InFlight :
      (c : Core P C) (now : ℕ)
      → InFlight c
      → c.sim_pipe.in_memory ≡ none
      → Ensures
          (schedule c memory (u64 (now + 1)) now >>= λ c1. some (move c1 execute memory))
          InFlight
  passed-InFlight c now f e =
      Ensures-bind InFlight (schedule c memory (u64 (now + 1)) now)
        (λ c1. some (move c1 execute memory))
        (λ c1 h.
          let s =
            Ensures-elim (SameFlow c) _ c1 (schedule-SameFlow c memory (u64 (now + 1)) now) h in
          to_memory (SameFlow-InFlight c c1 s f) (ap (λ p. p.in_memory) s.pipe ∙ e))

  end_legacy-InFlight :
      (io : Ports C) (c : Core P C) (t : Transaction) (now : ℕ)
      → InFlight c
      → c.sim_pipe.in_execute ≡ some t
      → c.sim_pipe.in_memory ≡ none
      → Ensures (end_legacy io c t now) InFlight
  unfolding end_legacy
  end_legacy-InFlight io c t now f e free =
      let u = record t { wait_mem = false } in
      let c1 = set_slot c execute (some u) in
      let rd = t.trace_inst.dst_reg in
      let is_load = t.trace_inst.mem_op == mem_load in
      let loaded = if is_load then update_reg_time c1 rd (u64 (now + 2)) now else some c1 in
      let same : Ensures loaded (SameFlow c1) =
        Ensures-if (SameFlow c1) is_load (update_reg_time c1 rd (u64 (now + 2)) now) (some c1)
          (λ _. update_reg_time-SameFlow c1 rd (u64 (now + 2)) now) (λ _. same_flow c1) in
      Ensures-bind InFlight loaded _ (λ c2 h.
        let s = Ensures-elim (SameFlow c1) loaded c2 same h in
        passed-InFlight c2 now (SameFlow-InFlight c1 c2 s (set_executed f t u e refl))
          (ap (λ p. p.in_memory) s.pipe ∙ free))

module _ {P C : Type 0} (io : Ports C) where
  ports_flow : (c : Core P C) (ports : C) → SameFlow c (record c { ports = ports })
  ports_flow c ports = record { input = refl; queue = refl; pipe = refl; ongoing = refl }

  send_write-InFlight :
      (c : Core P C) (port : Port) (addr word strb now : ℕ)
      → InFlight c
      → Ensures (send_write io c port addr word strb now) InFlight
  unfolding send_write
  send_write-InFlight c port addr word strb now f =
      Ensures-bind InFlight (io.write_req c.ports port addr word strb now)
        (λ r. recv_all (record c { ports = r.0 }) r.1 now)
        (λ r h. recv_all-InFlight (record c { ports = r.0 }) r.1 now f)

  send_read-InFlight :
      (c : Core P C) (port : Port) (addr now : ℕ)
      → InFlight c
      → Ensures (send_read io c port addr now) InFlight
  unfolding send_read
  send_read-InFlight c port addr now f =
      Ensures-bind InFlight (io.read_req c.ports port addr now)
        (λ ports. some (record c { ports = ports })) (λ ports h. f)

  send_lsu_req-InFlight :
      (c : Core P C) (port : Port) (addr word strb : ℕ) (is_write : Bool) (now : ℕ)
      → InFlight c
      → Ensures (send_lsu_req io c port addr word strb is_write now) InFlight
  unfolding send_lsu_req
  send_lsu_req-InFlight c port addr word strb is_write now f =
      let (r_ready, w_ready) = io.is_ready c.ports port in
      Ensures-bind InFlight (schedule c memory inf_time now) _ (λ c1 h.
        let f1 : InFlight c1 =
          SameFlow-InFlight c c1 (Ensures-elim _ _ c1 (schedule-SameFlow c memory inf_time now) h)
            f in
        Ensures-bind InFlight c1.sim_pipe.in_execute _ (λ t e.
          let u = record t { wait_mem = true } in
          let c2 = set_slot c1 execute (some u) in
          let f2 : InFlight c2 = set_executed f1 t u e refl in
          let written = send_write io c2 port (aligned addr) word strb now in
          let reads = send_read io c2 port (aligned addr) now in
          Ensures-if InFlight (if is_write then w_ready else r_ready)
            (if is_write then written else reads) (some c1)
            (λ _.
              Ensures-if InFlight is_write written reads
                (λ _. send_write-InFlight c2 port (aligned addr) word strb now f2)
                (λ _. send_read-InFlight c2 port (aligned addr) now f2))
            (λ _. f1)))

  -- Into a free slot `do_memory` loses no instruction, whatever the caches answer.
  pub do_memory-InFlight :
      (c : Core P C) (now : ℕ)
      → InFlight c
      → c.sim_pipe.in_memory ≡ none
      → Ensures (do_memory io c now) InFlight
  unfolding do_memory start_legacy load store pass_through
  do_memory-InFlight c now f free = Ensures-bind InFlight c.sim_pipe.in_execute _ (λ t e.
      let inst = t.trace_inst in
      let legacy = is_legacy c.has_nc inst in
      let c1 = stall c lsu_stall now in
      let f1 : InFlight c1 = SameFlow-InFlight c c1 (stall_flow c now) f in
      let port = lsu_port c.has_nc inst in
      let started = start_legacy io c t now in
      let loads = send_lsu_req io c1 port inst.mem_addr 0xbad 0xf false now in
      let sends = send_lsu_req io c1 port inst.mem_addr 0xbad 0xf true now in
      let stores = sends >>= λ d. schedule d memory inf_time now in
      let passed = schedule c memory (u64 (now + 1)) now >>= λ d. some (move d execute memory) in
      let moved = if inst.mem_op == mem_store then stores else passed in
      let requested = if inst.mem_op == mem_load then loads else moved in
      let waiting = if legacy then end_legacy io c t now else schedule c memory inf_time now in
      let ready = if legacy then started else requested in
      Ensures-if InFlight t.wait_mem waiting ready
        (λ _.
          Ensures-if InFlight legacy (end_legacy io c t now) (schedule c memory inf_time now)
            (λ _. end_legacy-InFlight io c t now f e free)
            (λ _. schedule-InFlight c memory inf_time now f))
        (λ _.
          Ensures-if InFlight legacy started requested
            (λ _.
              schedule-InFlight (set_slot c1 execute (some (record t { wait_mem = true }))) memory _
                now (set_executed f1 t (record t { wait_mem = true }) e refl))
            (λ _.
              Ensures-if InFlight (inst.mem_op == mem_load) loads moved
                (λ _. send_lsu_req-InFlight c1 port inst.mem_addr 0xbad 0xf false now f1)
                (λ _.
                  Ensures-if InFlight (inst.mem_op == mem_store) stores passed
                    (λ _.
                      Ensures-bind InFlight sends (λ d. schedule d memory inf_time now)
                        (λ d h. schedule-InFlight d memory inf_time now (
                          Ensures-elim _ sends d
                            (send_lsu_req-InFlight c1 port inst.mem_addr 0xbad 0xf true now f1) h)))
                    (λ _. passed-InFlight c now f free)))))
