-- ===== src/Pipe/Execute/Flow.antt =====
-- `do_execute`, `do_mul_ext` and `do_div_ext` lose no instruction but those that a flush takes off.
use ysyx_np_sim.Prelude.{
  ℕ, ◌≡◌, refl, ◌∙◌, ap, Bool, true, false, not, ◌&&◌, none, some, ◌>>=◌, leb, ◌==◌, if◌then◌else◌,
  Ensures, Ensures-then, Ensures-bind, Ensures-if, Ensures-elim, Ensures-all, Returns-elim,
}
use ysyx_np_sim.Trace.{is_set, mem_none}
use ysyx_np_sim.Branch.Unit
use ysyx_np_sim.Branch.Interface.{BranchPred}
use ysyx_np_sim.Pipe.Types.{Transaction, decode, execute}
use ysyx_np_sim.Pipe.Core.{Core, move, update_reg_time}
use ysyx_np_sim.Pipe.Core.Frame.{
  schedule-InFlight, SameFlow, same_flow, SameFlow-trans, SameFlow-InFlight,
  update_reg_time-SameFlow,
}
use ysyx_np_sim.Pipe.InFlight.{InFlight}
use ysyx_np_sim.Pipe.InFlight.Moves.{to_execute}
use ysyx_np_sim.Pipe.Execute.{
  flush_front, resolve, clear_entry, flush_non_branch, flush_false_btb_hit, forward_time,
  execute_inst, do_execute,
}
use ysyx_np_sim.Pipe.Execute.Flush.{flush_front-Flushed}

-- The count is right, and the slots that Execute fills hold what they held.
pub record Stays {P C : Type 0} (c d : Core P C) : Type 0 where
  pub flow : InFlight d
  pub execute_slot : d.sim_pipe.in_execute ≡ c.sim_pipe.in_execute
  pub mul_slot : d.sim_pipe.in_mul ≡ c.sim_pipe.in_mul
  pub div_slot : d.sim_pipe.in_div ≡ c.sim_pipe.in_div

module _ {P C : Type 0} where
  same-Stays : (c d : Core P C) → SameFlow c d → InFlight c → Stays c d
  same-Stays c d s f = record {
    flow = SameFlow-InFlight c d s f;
    execute_slot = ap (λ p. p.in_execute) s.pipe;
    mul_slot = ap (λ p. p.in_mul) s.pipe;
    div_slot = ap (λ p. p.in_div) s.pipe;
  }

  pub then-Stays : (c d e : Core P C) → Stays c d → SameFlow d e → Stays c e
  then-Stays c d e t s = record {
    flow = SameFlow-InFlight d e s t.flow;
    execute_slot = ap (λ p. p.in_execute) s.pipe ∙ t.execute_slot;
    mul_slot = ap (λ p. p.in_mul) s.pipe ∙ t.mul_slot;
    div_slot = ap (λ p. p.in_div) s.pipe ∙ t.div_slot;
  }

  -- A new branch unit, and then the flush.
  flush-Stays :
      (c d : Core P C) (now : ℕ) → SameFlow c d → InFlight c → Ensures (flush_front d now) (Stays c)
  flush-Stays c d now s f =
      let (e, eq, r) =
        Returns-elim _ (flush_front d now)
          (flush_front-Flushed d now (SameFlow-InFlight c d s f)) in
      rw eq (record {
        flow = r.flow;
        execute_slot = ap (λ p. p.in_execute) r.pipe ∙ ap (λ p. p.in_execute) s.pipe;
        mul_slot = ap (λ p. p.in_mul) r.pipe ∙ ap (λ p. p.in_mul) s.pipe;
        div_slot = ap (λ p. p.in_div) r.pipe ∙ ap (λ p. p.in_div) s.pipe;
      })

  bpu_flow : (c : Core P C) (bpu : Unit.BranchUnit P) → SameFlow c (record c { bpu = bpu })
  bpu_flow c bpu = record { input = refl; queue = refl; pipe = refl; ongoing = refl }

module _ {P C : Type 0} (api : BranchPred P) where
  resolve-Stays :
      (c : Core P C) (t : Transaction) (now : ℕ)
      → InFlight c
      → Ensures (resolve api c t now) (Stays c)
  unfolding resolve
  resolve-Stays c t now f =
      let inst = t.trace_inst in
      let taken = is_set inst.br_taken in
      let target = if taken then inst.mem_addr else 0 in
      let is_call = inst.dst_reg == 1 in
      let is_ret = inst.src_reg0 == 1 && inst.dst_reg == 0 in
      let btb_hit = not (t.br_pred.pred_target == 0) in
      Ensures-bind (Stays c)
        (Unit.update api c.bpu inst.pc taken target is_call is_ret btb_hit t.br_pred t.br_mispred) _
        (λ bpu h.
          let c1 = record c { bpu = bpu } in
          Ensures-if (Stays c) t.br_mispred (flush_front c1 now) (some c1)
            (λ _. flush-Stays c c1 now (bpu_flow c bpu) f)
            (λ _. same-Stays c c1 (bpu_flow c bpu) f))

  clear_entry-SameFlow : (c : Core P C) (pc : ℕ) → Ensures (clear_entry api c pc) (SameFlow c)
  unfolding clear_entry
  clear_entry-SameFlow c pc =
      Ensures-bind (SameFlow c) (Unit.clear_btb_entry c.bpu pc) _ (λ u k. bpu_flow c u)

  -- The part after the training.
  false_hit-Stays :
      (c : Core P C) (t : Transaction) (now : ℕ) (bpu : Unit.BranchUnit P)
      → InFlight c
      → Ensures
          (if t.br_mispred
            then (clear_entry api (record c { bpu = bpu }) t.trace_inst.pc >>= λ d.
                flush_front d now)
            else if not (t.br_pred.pred_target == 0)
            then clear_entry api (record c { bpu = bpu }) t.trace_inst.pc
            else some (record c { bpu = bpu }))
          (Stays c)
  false_hit-Stays c t now bpu f =
      let c1 = record c { bpu = bpu } in
      let clear = clear_entry api c1 t.trace_inst.pc in
      let hit = not (t.br_pred.pred_target == 0) in
      let same : (d : Core P C) → clear ≡ some d → SameFlow c d = λ d k.
        SameFlow-trans c c1 d (bpu_flow c bpu)
          (Ensures-elim _ _ d (clear_entry-SameFlow c1 t.trace_inst.pc) k) in
      Ensures-if (Stays c) t.br_mispred (clear >>= λ d. flush_front d now)
        (if hit then clear else some c1)
        (λ _.
          Ensures-bind (Stays c) clear (λ d. flush_front d now)
            (λ d k. flush-Stays c d now (same d k) f))
        (λ _.
          Ensures-if (Stays c) hit clear (some c1)
            (λ _. Ensures-all clear (λ d k. same-Stays c d (same d k) f))
            (λ _. same-Stays c c1 (bpu_flow c bpu) f))

  pub flush_false_btb_hit-Stays :
      (c : Core P C) (t : Transaction) (now : ℕ)
      → InFlight c
      → Ensures (flush_false_btb_hit api c t now) (Stays c)
  unfolding flush_false_btb_hit flush_non_branch
  flush_false_btb_hit-Stays c t now f =
      let trained =
        Unit.update api c.bpu t.trace_inst.pc false 0 false false true t.br_pred t.br_mispred in
      Ensures-if (Stays c) (is_set t.trace_inst.is_branch) (some c) (flush_non_branch api c t now)
        (λ _. same-Stays c c (same_flow c) f)
        (λ _.
          Ensures-bind (Stays c) (if not (t.br_pred.pred_target == 0) then trained else some c.bpu)
            _ (λ bpu h. false_hit-Stays c t now bpu f))

  -- Ready registers, before the instruction moves on.
  forwarded-Stays :
      (c d : Core P C) (b : Bool) (rd when now : ℕ)
      → Stays c d
      → Ensures (if b then update_reg_time d rd when now else some d) (Stays c)
  forwarded-Stays c d b rd when now s =
      Ensures-if (Stays c) b (update_reg_time d rd when now) (some d)
        (λ _. Ensures-all (update_reg_time d rd when now) (λ e k.
          then-Stays c d e s (Ensures-elim _ _ e (update_reg_time-SameFlow d rd when now) k)))
        (λ _. s)

  execute_inst-InFlight :
      (c : Core P C) (t : Transaction) (now : ℕ)
      → InFlight c
      → c.sim_pipe.in_execute ≡ none
      → Ensures (execute_inst api c t now) InFlight
  unfolding execute_inst
  execute_inst-InFlight c t now f e =
      let inst = t.trace_inst in
      let resolved = if is_set inst.is_branch then resolve api c t now else some c in
      let first : Ensures resolved (Stays c) =
        Ensures-if (Stays c) (is_set inst.is_branch) (resolve api c t now) (some c)
          (λ _. resolve-Stays c t now f) (λ _. same-Stays c c (same_flow c) f) in
      Ensures-bind InFlight resolved _ (λ c1 h.
        let s1 = Ensures-elim (Stays c) resolved c1 first h in
        Ensures-bind InFlight (flush_false_btb_hit api c1 t now) _ (λ c2 k.
          let s2 = Ensures-elim (Stays c1) _ c2 (flush_false_btb_hit-Stays c1 t now s1.flow) k in
          let third =
            if inst.mem_op == mem_none
            then update_reg_time c2 inst.dst_reg (forward_time inst now) now
            else some c2 in
          Ensures-bind InFlight third _ (λ c3 l.
            let s3 =
              Ensures-elim (Stays c1) third c3
                (forwarded-Stays c1 c2 (inst.mem_op == mem_none) inst.dst_reg
                  (forward_time inst now) now s2)
                l in
            schedule-InFlight (move c3 decode execute) execute _ now
              (to_execute s3.flow (s3.execute_slot ∙ s1.execute_slot ∙ e)))))

  -- Into a free slot `do_execute` loses no instruction but those that a flush takes off.
  pub do_execute-InFlight :
      (c : Core P C) (now : ℕ)
      → InFlight c
      → c.sim_pipe.in_execute ≡ none
      → Ensures (do_execute api c now) InFlight
  unfolding do_execute
  do_execute-InFlight c now f e = Ensures-then InFlight (leb c.stage_update.in_decode now) _ (λ _.
      Ensures-bind InFlight c.sim_pipe.in_decode _ (λ t h.
        Ensures-if InFlight (is_set t.trace_inst.ext_op) (some c) (execute_inst api c t now)
          (λ _. f) (λ _. execute_inst-InFlight c t now f e)))
