-- ===== src/Pipe/Decode/Flow.antt =====
-- `do_decode` loses no instruction.
use ysyx_np_sim.Prelude.{
  ℕ, ◌+◌, ◌≡◌, refl, sym, ◌∙◌, ap, subst, max, Bool, true, false, not, ◌&&◌, ◌||◌, Option, List,
  none, some, ltb, ◌==◌, bit, if◌then◌else◌, u64, Ensures, Ensures-bind, Ensures-if, Ensures-elim,
  Ensures-all, get_elem?, set_at,
}
use ysyx_np_sim.Trace.{TraceInst, is_set}
use ysyx_np_sim.Pipe.Types.{
  Transaction, StallCause, stall_no_inst, br_mispred, raw, fetch, decode, inf_time,
}
use ysyx_np_sim.Pipe.Core.{Core, present, waits, schedule, set_slot, move, stall, ready_time}
use ysyx_np_sim.Pipe.Core.Frame.{
  SameFlow, same_flow, SameFlow-trans, SameFlow-InFlight, schedule-SameFlow,
}
use ysyx_np_sim.Pipe.InFlight.{InFlight, FreshSlot, CountedSlot, weight}
use ysyx_np_sim.Pipe.InFlight.Moves.{to_decode, drop_fetch}
use ysyx_np_sim.Pipe.Decode.{
  writes, clamp, stall_unless_lsu, blocked, m_ext_ready, drop, pass, check_waw, check_raw,
  decode_inst, do_decode,
}

-- A placeholder does not count.
wrong_path-weight :
    (slot : Option Transaction) (t : Transaction)
    → slot ≡ some t
    → FreshSlot slot
    → t.is_wrong_path ≡ true
    → weight slot ≡ 0
wrong_path-weight slot t e f w = let g = subst FreshSlot e f in ap weight e ∙ ap bit (g ∙ ap not w)

fresh-counted :
    (slot : Option Transaction) (t : Transaction)
    → slot ≡ some t
    → FreshSlot slot
    → t.is_wrong_path ≡ false
    → CountedSlot slot
fresh-counted slot t e f w = let g = subst FreshSlot e f in subst CountedSlot (sym e) (g ∙ ap not w)

module _ {P C : Type 0} where
  pub schedule-InFlight :
      (c d : Core P C) (when now : ℕ)
      → SameFlow c d
      → InFlight c
      → Ensures (schedule d decode when now) InFlight
  schedule-InFlight c d when now s f = Ensures-all (schedule d decode when now) (λ e h.
      SameFlow-InFlight c e
        (SameFlow-trans c d e s (Ensures-elim _ _ e (schedule-SameFlow d decode when now) h)) f)

  stall_unless_lsu-SameFlow :
      (c : Core P C) (cause : StallCause) (now : ℕ)
      → SameFlow c (stall_unless_lsu c (λ d. stall d cause now))
  stall_unless_lsu-SameFlow c cause now = go (waits c.sim_pipe.in_execute)
    where
      go : (b : Bool) → SameFlow c (if b then c else stall c cause now)
      go true = same_flow c
      go false = record { input = refl; queue = refl; pipe = refl; ongoing = refl }

  blocked-InFlight :
      (c : Core P C) (when now : ℕ) → InFlight c → Ensures (blocked c when now) InFlight
  unfolding blocked
  blocked-InFlight c when now f =
      schedule-InFlight c _ when now (stall_unless_lsu-SameFlow c raw now) f

  drop-InFlight :
      (c : Core P C) (now : ℕ)
      → InFlight c
      → weight c.sim_pipe.in_fetch ≡ 0
      → Ensures (drop c now) InFlight
  unfolding drop
  drop-InFlight c now f w =
      let c1 = if c.tally.stall.in_br_recovery then stall c br_mispred now else c in
      let s : SameFlow c c1 = stalled c.tally.stall.in_br_recovery in
      let f1 : InFlight c1 = SameFlow-InFlight c c1 s f in
      let w1 : weight c1.sim_pipe.in_fetch ≡ 0 = ap (λ p. weight p.in_fetch) s.pipe ∙ w in
      schedule-InFlight (set_slot c1 fetch none) (set_slot c1 fetch none) _ now (same_flow _)
        (drop_fetch f1 w1)
    where
      stalled : (b : Bool) → SameFlow c (if b then stall c br_mispred now else c)
      stalled true = record { input = refl; queue = refl; pipe = refl; ongoing = refl }
      stalled false = same_flow c

  pass-InFlight :
      (c : Core P C) (inst : TraceInst) (ready now : ℕ)
      → InFlight c
      → c.sim_pipe.in_decode ≡ none
      → CountedSlot c.sim_pipe.in_fetch
      → Ensures (pass c inst ready now) InFlight
  unfolding pass
  pass-InFlight c inst ready now f e k =
      let c1 = stall_unless_lsu c (λ d. stall d stall_no_inst now) in
      let when = u64 (max now ready + 1) in
      Ensures-bind InFlight (schedule c1 decode when now) _ (λ c2 h.
        let s : SameFlow c c2 =
          SameFlow-trans c c1 c2 (stall_unless_lsu-SameFlow c stall_no_inst now)
            (Ensures-elim _ _ c2 (schedule-SameFlow c1 decode when now) h) in
        let moved : (regs : List ℕ)
            → InFlight (move (record c2 { reg_ready = regs }) fetch decode) =
          λ regs.
            to_decode (SameFlow-InFlight c c2 s f) (ap (λ p. p.in_decode) s.pipe ∙ e)
              (subst CountedSlot (sym (ap (λ p. p.in_fetch) s.pipe)) k) in
        Ensures-bind InFlight
          (if is_set inst.dst_reg
            then set_at c2.reg_ready inst.dst_reg inf_time
            else some c2.reg_ready)
          (λ regs. some (move (record c2 { reg_ready = regs }) fetch decode))
          (λ regs l. moved regs))

  decode_inst-InFlight :
      (c : Core P C) (inst : TraceInst) (now : ℕ)
      → InFlight c
      → c.sim_pipe.in_decode ≡ none
      → CountedSlot c.sim_pipe.in_fetch
      → Ensures (decode_inst c inst now) InFlight
  unfolding decode_inst check_raw check_waw
  decode_inst-InFlight c inst now f e k =
      Ensures-if InFlight
        (is_set inst.ext_op && (present c.sim_pipe.in_mul || present c.sim_pipe.in_div)) _ _
        (λ _. blocked-InFlight c (clamp (m_ext_ready c) now) now f)
        (λ _. Ensures-bind InFlight (ready_time c inst) _ (λ ready l.
          Ensures-if InFlight (ready == inf_time || ltb now ready) _ _
            (λ _. blocked-InFlight c ready now f)
            (λ _.
              Ensures-if InFlight
                (is_set inst.dst_reg
                  && (writes c.sim_pipe.in_mul inst.dst_reg
                      || writes c.sim_pipe.in_div inst.dst_reg))
                _ _
                (λ _.
                  Ensures-bind InFlight (get_elem? c.reg_ready inst.dst_reg) _
                    (λ w m. blocked-InFlight c (clamp w now) now f))
                (λ _. pass-InFlight c inst ready now f e k))))

  -- Into a free slot `do_decode` loses no instruction that counts.
  pub do_decode-InFlight :
      (c : Core P C) (now : ℕ)
      → InFlight c
      → c.sim_pipe.in_decode ≡ none
      → Ensures (do_decode c now) InFlight
  unfolding do_decode
  do_decode-InFlight c now f e = Ensures-bind InFlight c.sim_pipe.in_fetch _ (λ t h.
      Ensures-if InFlight t.is_wrong_path _ _
        (λ w. drop-InFlight c now f (wrong_path-weight _ t h f.fetch_fresh w))
        (λ w. decode_inst-InFlight c t.trace_inst now f e (fresh-counted _ t h f.fetch_fresh w)))
