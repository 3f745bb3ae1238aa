-- ===== src/Pipe/Memory/Alike.antt =====
-- Memory neither ends nor begins an instruction.
use ysyx_np_sim.Prelude.{
  ℕ, ◌≡◌, Bool, true, false, some, arith, inl, inr, >>=-eq-some, if-eq-some, if◌then◌else◌, ◌==◌,
}
use ysyx_np_sim.Trace.{TraceInst, mem_load, mem_store}
use ysyx_np_sim.Pipe.Types.{Transaction, execute, memory, lsu_stall, inf_time}
use ysyx_np_sim.Pipe.Core.{Core, Ports, Port, schedule, set_slot, stall}
use ysyx_np_sim.Pipe.Core.Alike.{Alike, Alike-trans, schedule-Alike, update_reg_time-Alike}
use ysyx_np_sim.Pipe.Respond.Alike.{recv_all-Alike}
use ysyx_np_sim.Pipe.Memory.{
  aligned, is_legacy, lsu_port, send_write, send_read, send_lsu_req, end_legacy, start_legacy, load,
  store, pass_through, do_memory,
}

module _ {P C : Type 0} (io : Ports C) where
  send_write-Alike :
      (c d : Core P C) (port : Port) (addr word strb now : ℕ)
      → send_write io c port addr word strb now ≡ some d
      → Alike c d
  unfolding send_write
  send_write-Alike c d port addr word strb now h = grind (arith, recv_all-Alike)

  send_read-Alike :
      (c d : Core P C) (port : Port) (addr now : ℕ)
      → send_read io c port addr now ≡ some d
      → Alike c d
  unfolding send_read
  send_read-Alike c d port addr now h = grind arith

  send_lsu_req-Alike :
      (c d : Core P C) (port : Port) (addr word strb : ℕ) (is_write : Bool) (now : ℕ)
      → send_lsu_req io c port addr word strb is_write now ≡ some d
      → Alike c d
  unfolding send_lsu_req
  send_lsu_req-Alike c d port addr word strb is_write now h =
      let (r_ready, w_ready) = io.is_ready c.ports port in
      let (c1, e1, k1) = >>=-eq-some (schedule c memory inf_time now) _ h in
      let (t, e2, k2) = >>=-eq-some c1.sim_pipe.in_execute _ k1 in
      let c2 = set_slot c1 execute (some (record t { wait_mem = true })) in
      let written = send_write io c2 port (aligned addr) word strb now in
      let reads = send_read io c2 port (aligned addr) now in
      let a = schedule-Alike c c1 memory inf_time now e1 in
      elim (if-eq-some (if is_write then w_ready else r_ready) (if is_write then written else reads)
        (some c1) k2) [
          | inl sent ↦ elim (if-eq-some is_write written reads sent) [
            | inl w ↦
                Alike-trans c c1 d a (send_write-Alike c2 d port (aligned addr) word strb now w)
            | inr r ↦ Alike-trans c c1 d a (send_read-Alike c2 d port (aligned addr) now r)
          ]
          | inr idle ↦ grind arith
        ]

  end_legacy-Alike :
      (c d : Core P C) (t : Transaction) (now : ℕ) → end_legacy io c t now ≡ some d → Alike c d
  unfolding end_legacy
  end_legacy-Alike c d t now h = grind (arith, schedule-Alike, update_reg_time-Alike)

  start_legacy-Alike :
      (c d : Core P C) (t : Transaction) (now : ℕ) → start_legacy io c t now ≡ some d → Alike c d
  unfolding start_legacy
  start_legacy-Alike c d t now h = grind (arith, schedule-Alike)

  load-Alike :
      (c d : Core P C) (inst : TraceInst) (now : ℕ) → load io c inst now ≡ some d → Alike c d
  unfolding load
  load-Alike c d inst now h =
      send_lsu_req-Alike (stall c lsu_stall now) d (lsu_port c.has_nc inst) inst.mem_addr 0xbad 0xf
        false now h

  store-Alike :
      (c d : Core P C) (inst : TraceInst) (now : ℕ) → store io c inst now ≡ some d → Alike c d
  unfolding store
  store-Alike c d inst now h =
      let (c1, e, k) =
        >>=-eq-some
          (send_lsu_req io (stall c lsu_stall now) (lsu_port c.has_nc inst) inst.mem_addr 0xbad 0xf
            true now)
          _ h in
      Alike-trans c c1 d
        (send_lsu_req-Alike (stall c lsu_stall now) c1 (lsu_port c.has_nc inst) inst.mem_addr 0xbad
          0xf true now e)
        (schedule-Alike c1 d memory inf_time now k)

  pass_through-Alike : (c d : Core P C) (now : ℕ) → pass_through io c now ≡ some d → Alike c d
  unfolding pass_through
  pass_through-Alike c d now h = grind (arith, schedule-Alike)

  pub do_memory-Alike : (c d : Core P C) (now : ℕ) → do_memory io c now ≡ some d → Alike c d
  unfolding do_memory
  do_memory-Alike c d now h =
      let (t, e, k) = >>=-eq-some c.sim_pipe.in_execute _ h in
      let inst = t.trace_inst in
      let legacy = is_legacy c.has_nc inst in
      let ended = end_legacy io c t now in
      let idle = schedule c memory inf_time now in
      let started = start_legacy io c t now in
      let loads = load io c inst now in
      let stores = store io c inst now in
      let passed = pass_through io c now in
      let moved = if inst.mem_op == mem_store then stores else passed in
      let later = if inst.mem_op == mem_load then loads else moved in
      let ready = if legacy then started else later in
      elim (if-eq-some t.wait_mem (if legacy then ended else idle) ready k) [
        | inl waiting ↦ elim (if-eq-some legacy ended idle waiting) [
          | inl r ↦ end_legacy-Alike c d t now r
          | inr r ↦ schedule-Alike c d memory inf_time now r
        ]
        | inr r ↦ elim (if-eq-some legacy started later r) [
          | inl r1 ↦ start_legacy-Alike c d t now r1
          | inr r1 ↦ elim (if-eq-some (inst.mem_op == mem_load) loads moved r1) [
            | inl r2 ↦ load-Alike c d inst now r2
            | inr r2 ↦ elim (if-eq-some (inst.mem_op == mem_store) stores passed r2) [
              | inl r3 ↦ store-Alike c d inst now r3
              | inr r3 ↦ pass_through-Alike c d now r3
            ]
          ]
        ]
      ]
