-- ===== src/Pipe/Respond/Flow.antt =====
-- The answers of the caches lose no instruction.
use ysyx_np_sim.Prelude.{
  ℕ, ◌+◌, ◌≡◌, ◌<◌, refl, ◌∙◌, ap, Bool, true, false, not, ◌&&◌, ◌||◌, Option, none, some, List, [],
  ◌∷◌, ◌>>=◌, ◌>>◌, assert, ltb, ◌==◌, if◌then◌else◌, u64, arith, length, get_elem?, set_at,
  get_elem?_of_lt, set_at_of_lt, All-get_elem?, Ensures, Ensures-then, Ensures-bind, Ensures-if,
  Ensures-elim,
}
use ysyx_np_sim.Mem.Types.{CpuTrans, AckTrans}
use ysyx_np_sim.Trace.{mem_none, mem_load}
use ysyx_np_sim.Pipe.Types.{Transaction, lsu_stall, raw, fetch, execute, memory}
use ysyx_np_sim.Pipe.Ifq.{slot_of}
use ysyx_np_sim.Pipe.Ifq.Queue.{slot_in}
use ysyx_np_sim.Pipe.Ifq.Find.{first_from, slot_of?, find_if_ptr-first}
use ysyx_np_sim.Pipe.Ifq.Entry.{first_from-entry}
use ysyx_np_sim.Pipe.Core.{
  Core, present, async_schedule, set_slot, move, stall, ready_time, update_reg_time,
}
use ysyx_np_sim.Pipe.Core.Frame.{
  async-InFlight, SameFlow, same_flow, SameFlow-trans, SameFlow-InFlight, async_schedule-SameFlow,
  update_reg_time-SameFlow,
}
use ysyx_np_sim.Pipe.InFlight.{InFlight, IsFresh, not-present}
use ysyx_np_sim.Pipe.InFlight.Moves.{to_memory}
use ysyx_np_sim.Pipe.InFlight.Slots.{set_queued, set_executed}
use ysyx_np_sim.Pipe.Respond.{
  is_write, wake_entry, answer, handle_ifu_resp, check_raw, handle_lsu_resp, recv_mem_resp,
  retry_memory, ack_mem_avail, recv_all,
}

module _ {P C : Type 0} where
  wake_slot-InFlight :
      (c : Core P C) (now k : ℕ) (f : InFlight c)
      → k < length f.entries
      → Ensures
          (get_elem? c.fetch_queue.buf (slot_of c.fetch_queue k) >>= λ entry. entry >>= λ t.
            set_at c.fetch_queue.buf
              (slot_of c.fetch_queue k)
              (some (record t { wait_mem = false }))
            >>= λ buf.
                async_schedule
                  (record c { fetch_queue = record c.fetch_queue { buf = buf } })
                  fetch
                  (u64 (now + 1))
                  now)
          InFlight
  wake_slot-InFlight c now k f lt =
      let q = c.fetch_queue in
      let (t, e) = get_elem?_of_lt f.entries k lt in
      let u = record t { wait_mem = false } in
      let found : get_elem? q.buf (slot_of q k) ≡ some (some t) = f.queue.slots k lt ∙ ap some e in
      rw (found, set_at_of_lt q.buf (slot_of q k) (some u) (slot_in q f.entries k f.queue))
        (async-InFlight _ fetch _ now
          (set_queued f k t u e refl (All-get_elem? IsFresh f.entries k f.fresh e)))

  wake_entry-InFlight : (c : Core P C) (now : ℕ) → InFlight c → Ensures (wake_entry c now) InFlight
  unfolding wake_entry
  wake_entry-InFlight c now f =
      rw (find_if_ptr-first (λ t. t.wait_mem) c.fetch_queue f.entries f.queue)
        (go (first_from (λ t. t.wait_mem) f.entries 0) refl)
    where
      go :
          (o : Option ℕ)
          → first_from (λ t. t.wait_mem) f.entries 0 ≡ o
          → Ensures
              (slot_of? c.fetch_queue o >>= λ slot. get_elem? c.fetch_queue.buf slot >>= λ entry.
                entry >>= λ t.
                set_at c.fetch_queue.buf slot (some (record t { wait_mem = false })) >>= λ buf.
                async_schedule
                  (record c { fetch_queue = record c.fetch_queue { buf = buf } })
                  fetch
                  (u64 (now + 1))
                  now)
              InFlight
      go none e = tt
      go (some k) e =
          let (j, s, lt) = first_from-entry (λ t. t.wait_mem) f.entries 0 k e in
          wake_slot-InFlight c now k f (omega arith)

  answer-InFlight :
      (c : Core P C) (orphans : List Bool) (now : ℕ)
      → InFlight c
      → Ensures (answer c orphans now) InFlight
  unfolding answer
  answer-InFlight c [] now f = tt
  answer-InFlight c (orphan ∷ rest) now f =
      let c1 = record c { fetch_state = record c.fetch_state { resp_is_orphan = rest } } in
      Ensures-if InFlight orphan (some c1) (wake_entry c1 now) (λ _. f)
        (λ _. wake_entry-InFlight c1 now f)

  check_raw-SameFlow :
      (c : Core P C) (slot : Option Transaction) (now : ℕ)
      → Ensures (check_raw c slot now) (SameFlow c)
  unfolding check_raw
  check_raw-SameFlow c none now = same_flow c
  check_raw-SameFlow c (some t) now =
      Ensures-bind (SameFlow c) (ready_time c t.trace_inst)
        (λ ready. some (if ltb now ready then stall c raw now else c))
        (λ ready e. go (ltb now ready))
    where
      go : (b : Bool) → SameFlow c (if b then stall c raw now else c)
      go true = record { input = refl; queue = refl; pipe = refl; ongoing = refl }
      go false = same_flow c

  loaded-SameFlow :
      (c : Core P C) (b : Bool) (rd when now : ℕ)
      → Ensures (if b then update_reg_time c rd when now else some c) (SameFlow c)
  loaded-SameFlow c b rd when now =
      Ensures-if (SameFlow c) b (update_reg_time c rd when now) (some c)
        (λ _. update_reg_time-SameFlow c rd when now) (λ _. same_flow c)

  pub handle_lsu_resp-InFlight :
      (c : Core P C) (now : ℕ) → InFlight c → Ensures (handle_lsu_resp c now) InFlight
  unfolding handle_lsu_resp
  handle_lsu_resp-InFlight c now f = Ensures-bind InFlight c.sim_pipe.in_execute _ (λ t e.
      Ensures-then InFlight t.wait_mem _ (λ _.
        Ensures-then InFlight (not (present c.sim_pipe.in_memory)) _ (λ free.
          let u = record t { wait_mem = false } in
          let c1 = set_slot c execute (some u) in
          let is_load = t.trace_inst.mem_op == mem_load in
          let rd = t.trace_inst.dst_reg in
          let loaded = if is_load then update_reg_time c1 rd (u64 (now + 2)) now else some c1 in
          Ensures-bind InFlight loaded _ (λ c2 h2.
            let c3 = stall c2 lsu_stall now in
            let s2 : SameFlow c1 c2 =
              Ensures-elim _ loaded c2 (loaded-SameFlow c1 is_load rd (u64 (now + 2)) now) h2 in
            let s3 : SameFlow c1 c3 = record {
              input = s2.input;
              queue = s2.queue;
              pipe = s2.pipe;
              ongoing = s2.ongoing;
            } in
            Ensures-bind InFlight (check_raw c3 c3.sim_pipe.in_fetch now) _ (λ c4 h4.
              let s4 : SameFlow c1 c4 =
                SameFlow-trans c1 c3 c4 s3
                  (Ensures-elim _ _ c4 (check_raw-SameFlow c3 c3.sim_pipe.in_fetch now) h4) in
              Ensures-bind InFlight (async_schedule c4 memory (u64 (now + 1)) now)
                (λ c5. some (move c5 execute memory))
                (λ c5 h5.
                  let s5 : SameFlow c1 c5 = SameFlow-trans c1 c4 c5 s4 (
                    Ensures-elim _ _ c5 (async_schedule-SameFlow c4 memory (u64 (now + 1)) now)
                      h5) in
                  let f1 : InFlight c1 = set_executed f t u e refl in
                  to_memory (SameFlow-InFlight c1 c5 s5 f1)
                    (ap (λ p. p.in_memory) s5.pipe ∙ not-present c.sim_pipe.in_memory free)))))))

  pub recv_mem_resp-InFlight :
      (c : Core P C) (resp : CpuTrans) (now : ℕ)
      → InFlight c
      → Ensures (recv_mem_resp c resp now) InFlight
  unfolding recv_mem_resp handle_ifu_resp
  recv_mem_resp-InFlight c resp now f =
      let from_ifu = assert (not (is_write resp.mop)) >> handle_ifu_resp c now in
      let from_lsu = handle_lsu_resp c now in
      Ensures-if InFlight (resp.id == 0) from_ifu
        (if resp.id == 1 || resp.id == 2 then from_lsu else none)
        (λ _.
          Ensures-then InFlight (not (is_write resp.mop)) (handle_ifu_resp c now)
            (λ _. answer-InFlight c c.fetch_state.resp_is_orphan now f))
        (λ _.
          Ensures-if InFlight (resp.id == 1 || resp.id == 2) from_lsu none
            (λ _. handle_lsu_resp-InFlight c now f) (λ _. tt))

  pub recv_all-InFlight :
      (c : Core P C) (resps : List CpuTrans) (now : ℕ)
      → InFlight c
      → Ensures (recv_all c resps now) InFlight
  unfolding recv_all
  recv_all-InFlight c [] now f = f
  recv_all-InFlight c (resp ∷ resps) now f =
      Ensures-bind InFlight (recv_mem_resp c resp now) (λ c1. recv_all c1 resps now)
        (λ c1 h.
          recv_all-InFlight c1 resps now
            (Ensures-elim _ _ c1 (recv_mem_resp-InFlight c resp now f) h))

  retry-InFlight :
      (c : Core P C) (slot : Option Transaction) (now : ℕ)
      → InFlight c
      → Ensures (retry_memory c slot now) InFlight
  unfolding retry_memory
  retry-InFlight c none now f = f
  retry-InFlight c (some t) now f =
      Ensures-if InFlight (not t.wait_mem && not (t.trace_inst.mem_op == mem_none))
        (async_schedule c memory now now) (some c) (λ _. async-InFlight c memory now now f) (λ _. f)

  pub ack_mem_avail-InFlight :
      (c : Core P C) (ack : AckTrans) (now : ℕ)
      → InFlight c
      → Ensures (ack_mem_avail c ack now) InFlight
  unfolding ack_mem_avail
  ack_mem_avail-InFlight c ack now f =
      let to_ifu = async_schedule c fetch now now in
      let to_lsu = retry_memory c c.sim_pipe.in_execute now in
      Ensures-if InFlight (ack.id == 0) to_ifu (if ack.id == 1 || ack.id == 2 then to_lsu else none)
        (λ _. async-InFlight c fetch now now f)
        (λ _.
          Ensures-if InFlight (ack.id == 1 || ack.id == 2) to_lsu none
            (λ _. retry-InFlight c c.sim_pipe.in_execute now f) (λ _. tt))
