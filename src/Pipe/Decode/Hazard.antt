-- ===== src/Pipe/Decode/Hazard.antt =====
-- pipeSim/Pipeline.cc: which instructions `do_decode` lets through.
use ysyx_np_sim.Prelude.{
  Option, List, set_at, if◌then◌else◌, ℕ, ◌≤◌, ◌≡◌, refl, ◌∙◌, ap, Bool, true, false, ◌&&◌, ◌||◌,
  ◌⊎◌, inl, inr, List, some, arith, Ensures, Ensures-then, Ensures-elim, Ensures-bind, Ensures-if,
  ltb, leb, ◌==◌, u64, max, ◌+◌, if◌then◌else◌,
}
use ysyx_np_sim.Trace.{is_set}
use ysyx_np_sim.Pipe.Types.{Transaction, StallCause, decode, fetch, inf_time}
use ysyx_np_sim.Pipe.Core.{Core, present, waits, schedule, move, stall, ready_time}
use ysyx_np_sim.Pipe.Decode.{
  writes, clamp, stall_unless_lsu, blocked, m_ext_ready, drop, pass, check_waw, check_raw,
  decode_inst, do_decode,
}

module _ {P C : Type 0} where
  -- The slot behind Decode holds what it held.
  abbrev pub Keeps : Core P C → Core P C → Type 0
  Keeps c d = d.sim_pipe.in_decode ≡ c.sim_pipe.in_decode

  -- The instruction in Fetch goes on, and no hazard holds it: its sources are ready, a
  -- multiplication or division finds both units free, and no unit will write its register.
  pub record Issues (c d : Core P C) (now : ℕ) : Type 0 where
    pub inst : Transaction
    pub from_fetch : c.sim_pipe.in_fetch ≡ some inst
    pub to_decode : d.sim_pipe.in_decode ≡ some inst
    pub ready : ℕ
    pub sources : ready_time c inst.trace_inst ≡ some ready
    pub in_time : ready ≤ now
    pub units :
        (is_set inst.trace_inst.ext_op && (present c.sim_pipe.in_mul || present c.sim_pipe.in_div))
        ≡ false
    pub order :
        (is_set inst.trace_inst.dst_reg
          && (writes c.sim_pipe.in_mul inst.trace_inst.dst_reg
              || writes c.sim_pipe.in_div inst.trace_inst.dst_reg))
        ≡ false

  abbrev pub Decodes : ℕ → Core P C → Core P C → Type 0
  Decodes now c d = Keeps c d ⊎ Issues c d now

  stall_unless_lsu-pipe :
      (c : Core P C) (cause : StallCause) (now : ℕ)
      → (stall_unless_lsu c (λ d. stall d cause now)).sim_pipe ≡ c.sim_pipe
  stall_unless_lsu-pipe c cause now = go (waits c.sim_pipe.in_execute)
    where
      go : (b : Bool) → (if b then c else stall c cause now).sim_pipe ≡ c.sim_pipe
      go true = refl
      go false = refl

  schedule-pipe :
      (c : Core P C) (when now : ℕ)
      → Ensures (schedule c decode when now) (λ d. d.sim_pipe ≡ c.sim_pipe)
  unfolding schedule
  schedule-pipe c when now =
      Ensures-then (λ d. d.sim_pipe ≡ c.sim_pipe) (leb now when) _ (λ _. refl)

  schedule-Decodes :
      (c d : Core P C) (when now : ℕ)
      → Keeps c d
      → Ensures (schedule d decode when now) (Decodes now c)
  unfolding schedule
  schedule-Decodes c d when now h = Ensures-then (Decodes now c) (leb now when) _ (λ _. inl h)

  blocked-Decodes : (c : Core P C) (when now : ℕ) → Ensures (blocked c when now) (Decodes now c)
  unfolding blocked
  blocked-Decodes c when now =
      schedule-Decodes c _ when now (ap (λ p. p.in_decode) (stall_unless_lsu-pipe c _ now))

  drop-Decodes : (c : Core P C) (now : ℕ) → Ensures (drop c now) (Decodes now c)
  unfolding drop
  drop-Decodes c now = schedule-Decodes c _ _ now (dropped c.tally.stall.in_br_recovery)
    where
      dropped :
          (b : Bool)
          → (if b then stall c StallCause.br_mispred now else c).sim_pipe.in_decode
            ≡ c.sim_pipe.in_decode
      dropped true = refl
      dropped false = refl

  pass-Issues :
      (c : Core P C) (t : Transaction) (ready now : ℕ)
      → c.sim_pipe.in_fetch ≡ some t
      → ready_time c t.trace_inst ≡ some ready
      → ready ≤ now
      → (is_set t.trace_inst.ext_op && (present c.sim_pipe.in_mul || present c.sim_pipe.in_div))
        ≡ false
      → (is_set t.trace_inst.dst_reg
          && (writes c.sim_pipe.in_mul t.trace_inst.dst_reg
              || writes c.sim_pipe.in_div t.trace_inst.dst_reg))
        ≡ false
      → Ensures (pass c t.trace_inst ready now) (Decodes now c)
  unfolding pass
  pass-Issues c t ready now f r le u o =
      let c1 = stall_unless_lsu c (λ d. stall d StallCause.stall_no_inst now) in
      let when = u64 (max now ready + 1) in
      Ensures-bind (Decodes now c) (schedule c1 decode when now) _ (λ c2 h.
        let same : c2.sim_pipe ≡ c.sim_pipe =
          Ensures-elim _ (schedule c1 decode when now) c2 (schedule-pipe c1 when now) h
          ∙ stall_unless_lsu-pipe c StallCause.stall_no_inst now in
        let issued : (regs : List ℕ)
            → Issues c (move (record c2 { reg_ready = regs }) fetch decode) now =
          λ regs. record {
            inst = t;
            from_fetch = f;
            to_decode = ap (λ p. p.in_fetch) same ∙ f;
            ready = ready;
            sources = r;
            in_time = le;
            units = u;
            order = o;
          } in
        Ensures-bind (Decodes now c) (claimed_regs t c2.reg_ready)
          (λ regs. some (move (record c2 { reg_ready = regs }) fetch decode))
          (λ regs k. inr (issued regs)))
    where
      claimed_regs : Transaction → List ℕ → Option (List ℕ)
      claimed_regs t regs =
          if is_set t.trace_inst.dst_reg
          then set_at regs t.trace_inst.dst_reg inf_time
          else some regs

  check_waw-Decodes :
      (c : Core P C) (t : Transaction) (ready now : ℕ)
      → c.sim_pipe.in_fetch ≡ some t
      → ready_time c t.trace_inst ≡ some ready
      → ready ≤ now
      → (is_set t.trace_inst.ext_op && (present c.sim_pipe.in_mul || present c.sim_pipe.in_div))
        ≡ false
      → Ensures (check_waw c t.trace_inst ready now) (Decodes now c)
  unfolding check_waw
  check_waw-Decodes c t ready now f r le u =
      Ensures-if (Decodes now c) _ _ _
        (λ _. Ensures-bind (Decodes now c) _ _ (λ w k. blocked-Decodes c (clamp w now) now))
        (λ o. pass-Issues c t ready now f r le u o)

  check_raw-Decodes :
      (c : Core P C) (t : Transaction) (now : ℕ)
      → c.sim_pipe.in_fetch ≡ some t
      → (is_set t.trace_inst.ext_op && (present c.sim_pipe.in_mul || present c.sim_pipe.in_div))
        ≡ false
      → Ensures (check_raw c t.trace_inst now) (Decodes now c)
  unfolding check_raw
  check_raw-Decodes c t now f u =
      Ensures-bind (Decodes now c) (ready_time c t.trace_inst) _ (λ ready r.
        Ensures-if (Decodes now c) _ _ _ (λ _. blocked-Decodes c ready now)
          (λ o. check_waw-Decodes c t ready now f r (not_later ready o) u))
    where
      not_later : (ready : ℕ) → (ready == inf_time || ltb now ready) ≡ false → ready ≤ now
      not_later ready o = ground arith

  decode_inst-Decodes :
      (c : Core P C) (t : Transaction) (now : ℕ)
      → c.sim_pipe.in_fetch ≡ some t
      → Ensures (decode_inst c t.trace_inst now) (Decodes now c)
  unfolding decode_inst
  decode_inst-Decodes c t now f =
      Ensures-if (Decodes now c) _ _ _ (λ _. blocked-Decodes c (clamp (m_ext_ready c) now) now)
        (λ u. check_raw-Decodes c t now f u)

  -- Whatever `do_decode` makes of a core, either the slot behind Decode holds what it held, or the
  -- instruction in Fetch enters it with its sources ready, both units free if it multiplies or
  -- divides, and no multiplication or division in flight that writes its register.
  pub do_decode-Issues : (c : Core P C) (now : ℕ) → Ensures (do_decode c now) (Decodes now c)
  unfolding do_decode
  do_decode-Issues c now = Ensures-bind (Decodes now c) c.sim_pipe.in_fetch _ (λ t f.
      Ensures-if (Decodes now c) t.is_wrong_path _ _ (λ _. drop-Decodes c now)
        (λ _. decode_inst-Decodes c t now f))
