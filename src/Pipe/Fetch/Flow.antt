-- ===== src/Pipe/Fetch/Flow.antt =====
-- Fetching loses no instruction.
use ysyx_np_sim.Prelude.{
  ℕ, ◌+◌, ◌-◌, ◌<◌, ◌≡◌, refl, sym, ◌∙◌, ap, subst, true, false, not, ◌&&◌, Option, none, some,
  List, ◌∷◌, ◌>>=◌, arith, ltb, if◌then◌else◌, u64, length, get_elem?, set, set_at, set_at_of_lt,
  All-get_elem?, Ensures, Ensures-then, Ensures-bind, Ensures-if, Returns-elim, incr,
}
use ysyx_np_sim.Trace.{TraceInst, is_set, no_inst}
use ysyx_np_sim.Branch.Unit
use ysyx_np_sim.Branch.Interface.{BranchPred}
use ysyx_np_sim.Pipe.Types.{Transaction, transaction, PerStage, br_mispred, fetch, inf_time}
use ysyx_np_sim.Pipe.Ifq.{Ifq, slot_of}
use ysyx_np_sim.Pipe.Ifq
use ysyx_np_sim.Pipe.Ifq.Queue.{
  Represents, slot_in, head_slot, front-entries, push_back_refines, pop_front_refines,
}
use ysyx_np_sim.Pipe.Core.{Core, Ports, imem, present, schedule, stall}
use ysyx_np_sim.Pipe.Core.Frame.{schedule-InFlight}
use ysyx_np_sim.Pipe.InFlight.{weight, Flow, InFlight, IsFresh, RealSlot, not-present}
use ysyx_np_sim.Pipe.InFlight.QueueMoves.{fed, enqueued, dequeued}
use ysyx_np_sim.Pipe.InFlight.Slots.{set_queued}
use ysyx_np_sim.Pipe.Fetch.{
  hold_front, issue_front, try_front, do_fetch_1, early_redirect, request_wrong, wrong_fetch, held,
  fetch_inst, fetch_input, normal_fetch, off_wrong_path, request, do_fetch_0, feed_inst,
}

with_room :
    {i : Option Transaction} {q : Ifq Transaction} {p : PerStage (Option Transaction)} {n : ℕ}
    → (f : Flow i q p n) → Ifq.full q ≡ false
    → length f.entries < q.cap
with_room f room = ground (arith, f.queue.count)

module _ {P C : Type 0} where
  -- With the entries at hand.
  try_front-InFlight :
      (c : Core P C) (t : Transaction) (now : ℕ) (f : InFlight c) (ts : List Transaction)
      → f.entries ≡ t ∷ ts
      → Ensures (try_front c t now) InFlight
  unfolding try_front hold_front issue_front
  try_front-InFlight c t now f ts e =
      let q = c.fetch_queue in
      let u = record t { bp_meta_hold = t.bp_meta_hold - 1 } in
      let r : Represents q (t ∷ ts) = subst (Represents q) e f.queue in
      let (q', eq, (r', cap)) = Returns-elim _ (Ifq.pop_front q) (pop_front_refines q t ts r).1 in
      Ensures-if InFlight t.wait_mem (schedule c fetch inf_time now)
        (if ltb 0 t.bp_meta_hold then hold_front c t now else issue_front c t)
        (λ _. schedule-InFlight c fetch inf_time now f)
        (λ _.
          Ensures-if InFlight (ltb 0 t.bp_meta_hold) (hold_front c t now) (issue_front c t)
            (λ _.
              let at_head : get_elem? f.entries 0 ≡ some t =
                ap (λ (l : List Transaction). get_elem? l 0) e in
              let fr : IsFresh t = All-get_elem? IsFresh f.entries 0 f.fresh at_head in
              let written : set_at q.buf q.head (some u) ≡ some (set q.buf (slot_of q 0) (some u)) =
                ap (λ (k : ℕ). set_at q.buf k (some u)) (head_slot q f.entries f.queue)
                ∙ set_at_of_lt q.buf (slot_of q 0) (some u) (slot_in q f.entries 0 f.queue) in
              rw written (
                schedule-InFlight _ fetch (u64 (now + 1)) now (set_queued f 0 t u at_head refl fr)))
            (λ _.
              Ensures-then InFlight (not (present c.sim_pipe.in_fetch)) _
                (λ free. rw eq (dequeued f t e r' cap (not-present c.sim_pipe.in_fetch free)))))

  pub do_fetch_1-InFlight :
      (c : Core P C) (now : ℕ) → InFlight c → Ensures (do_fetch_1 c now) InFlight
  unfolding do_fetch_1
  do_fetch_1-InFlight c now f =
      let tried = Ifq.front c.fetch_queue >>= λ t. try_front c t now in
      Ensures-if InFlight (Ifq.empty c.fetch_queue) (schedule c fetch inf_time now) tried
        (λ _. schedule-InFlight c fetch inf_time now f)
        (λ _.
          Ensures-bind InFlight (Ifq.front c.fetch_queue) (λ t. try_front c t now)
            (λ t h.
              let (ts, e) = front-entries c.fetch_queue f.entries t f.queue h in
              try_front-InFlight c t now f ts e))

-- Neither a placeholder nor the instruction of the input buffer changes what it counts.
placeholder-IsFresh : (inst : TraceInst) → IsFresh (transaction inst true true)
placeholder-IsFresh inst = refl

real-IsFresh :
    (t : Transaction) → (t.counted_inflight ≡ true) × (t.is_wrong_path ≡ false) → IsFresh t
real-IsFresh t r = r.0 ∙ sym (ap not r.1)

module _ {P C : Type 0} (api : BranchPred P) (io : Ports C) where
  early_redirect-InFlight :
      (c : Core P C) (now : ℕ) → InFlight c → Ensures (early_redirect api io c now) InFlight
  unfolding early_redirect
  early_redirect-InFlight c now f =
      Ensures-bind InFlight (io.read_req c.ports imem c.fetch_state.early_redir_seq_pc now) _
        (λ ports h. f)

  wrong_fetch-InFlight :
      (c : Core P C) (now : ℕ) → InFlight c → Ensures (wrong_fetch api io c now) InFlight
  unfolding wrong_fetch request_wrong
  wrong_fetch-InFlight c now f =
      let pc = c.fetch_state.wrong_path_pc in
      let t = transaction (record no_inst { pc = pc }) true true in
      Ensures-if InFlight (Ifq.full c.fetch_queue) (some c) (request_wrong api io c now) (λ _. f)
        (λ room.
          let (q', eq, (r, cap)) =
            Returns-elim _ (Ifq.push_back c.fetch_queue t)
              (push_back_refines c.fetch_queue f.entries t f.queue (with_room f room)) in
          Ensures-bind InFlight (Unit.predict api c.bpu pc) _ (λ p h. rw eq (
            Ensures-bind InFlight (io.read_req c.ports imem pc now) _ (λ ports k.
              enqueued f t r cap (placeholder-IsFresh (record no_inst { pc = pc })) f.input_real
                (omega arith)))))

  fetch_inst-InFlight :
      (c : Core P C) (t : Transaction) (now : ℕ)
      → InFlight c
      → c.input_buffer ≡ some t
      → Ifq.full c.fetch_queue ≡ false
      → Ensures (fetch_inst api io c t now) InFlight
  unfolding fetch_inst
  fetch_inst-InFlight c t now f e room =
      let inst = t.trace_inst in
      let real_taken = is_set inst.is_branch && is_set inst.br_taken in
      let real_target = if real_taken then inst.mem_addr else 0 in
      let real = subst RealSlot e f.input_real in
      Ensures-bind InFlight (Unit.predict_at_fetch api c.bpu inst.pc (is_set inst.is_branch)) _
        (λ p h.
          let judged = Unit.judge p.1 real_taken real_target p.0 in
          let u = record (held api io t) { br_pred = p.0; br_mispred = not judged.0 } in
          let (q', eq, (r, cap)) =
            Returns-elim _ (Ifq.push_back c.fetch_queue u)
              (push_back_refines c.fetch_queue f.entries u f.queue (with_room f room)) in
          Ensures-bind InFlight (io.read_req c.ports imem inst.pc now) _ (λ ports k.
            rw eq (
              enqueued {j = none} f u r cap (real-IsFresh t real) tt (omega (arith, ap weight e)))))

  normal_fetch-InFlight :
      (c : Core P C) (now : ℕ) → InFlight c → Ensures (normal_fetch api io c now) InFlight
  unfolding normal_fetch
  normal_fetch-InFlight c now f =
      Ensures-if InFlight (Ifq.full c.fetch_queue) (some c)
        (fetch_input api io c c.input_buffer now) (λ _. f) (λ room. input c.input_buffer refl room)
    where
      input :
          (slot : Option Transaction)
          → c.input_buffer ≡ slot
          → Ifq.full c.fetch_queue ≡ false
          → Ensures (fetch_input api io c slot now) InFlight
      input none e room = f
      input (some t) e room = fetch_inst-InFlight c t now f e room

  -- `do_fetch_0` loses no instruction: the one in the input buffer stays or joins the queue.
  pub do_fetch_0-InFlight :
      (c : Core P C) (now : ℕ) → InFlight c → Ensures (do_fetch_0 api io c now) InFlight
  unfolding do_fetch_0 request
  do_fetch_0-InFlight c now f =
      let (r_ready, w_ready) = io.is_ready c.ports imem in
      let fs = c.fetch_state in
      let early = early_redirect api io c now in
      let back = normal_fetch api io (off_wrong_path api io c) now in
      let wrong = wrong_fetch api io c now in
      let normal = normal_fetch api io c now in
      let off = if fs.wp_flushed then back else wrong in
      let late = if fs.wrong_path then off else normal in
      let requests = if ltb 0 fs.early_redir_remaining then early else late in
      let awake = if r_ready then requests else some c in
      Ensures-if InFlight (ltb now fs.resume_tick) (some (stall c br_mispred now)) awake (λ _. f)
        (λ _.
          Ensures-if InFlight r_ready requests (some c)
            (λ _.
              Ensures-if InFlight (ltb 0 fs.early_redir_remaining) early late
                (λ _. early_redirect-InFlight c now f)
                (λ _.
                  Ensures-if InFlight fs.wrong_path off normal
                    (λ _.
                      Ensures-if InFlight fs.wp_flushed back wrong
                        (λ _. normal_fetch-InFlight (off_wrong_path api io c) now f)
                        (λ _. wrong_fetch-InFlight c now f))
                    (λ _. normal_fetch-InFlight c now f)))
            (λ _. f))

  -- An instruction that is fed counts from then on.
  pub feed_inst-InFlight :
      (c : Core P C) (inst : TraceInst) (now : ℕ)
      → InFlight c
      → Ensures (feed_inst api io c inst now) InFlight
  unfolding feed_inst
  feed_inst-InFlight c inst now f = Ensures-then InFlight (not (present c.input_buffer)) _ (λ free.
      do_fetch_0-InFlight
        (record c {
          ongoing_insts = incr c.ongoing_insts;
          input_buffer = some (transaction inst false false);
        })
        now (fed f (transaction inst false false) (not-present c.input_buffer free) (refl, refl)))
