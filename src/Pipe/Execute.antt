-- ===== src/Pipe/Execute.antt =====
-- pipeSim/Pipeline.cc: `do_execute`, `do_mul_ext` and `do_div_ext`, with the flush of the front end.
pub mod Flush
pub mod Flow
pub mod Drain
pub mod Units
use ysyx_np_sim.Prelude.{
  ℕ, zero, suc, ◌+◌, Bool, true, false, not, ◌&&◌, ◌||◌, Option, none, some, map, ◌>>=◌, ◌>>◌,
  assert, if◌then◌else◌, leb, ◌==◌, u64,
}
use ysyx_np_sim.Trace.{TraceInst, is_set, mem_none, int_mul_l, int_mul_h, int_div, int_rem}
use ysyx_np_sim.Branch.Unit
use ysyx_np_sim.Branch.Interface.{BranchPred}
use ysyx_np_sim.Pipe.Types.{
  Transaction, FetchState, fetch, decode, execute, int_mul_ext, int_div_ext, write_back, sub64,
}
use ysyx_np_sim.Pipe.Ifq.{Ifq}
use ysyx_np_sim.Pipe.Ifq
use ysyx_np_sim.Pipe.Stall.{Tally}
use ysyx_np_sim.Pipe.Stall
use ysyx_np_sim.Pipe.Core.{Core, schedule, async_schedule, set_slot, move, update_reg_time}

-- `kBranchMissPenalty`
abbrev pub branch_miss_penalty : ℕ
branch_miss_penalty = 1

-- The instruction is there and counts as in flight.
abbrev pub counted : Option Transaction → Bool
counted none = false
counted (some t) = t.counted_inflight

-- `if (counted) ongoing_insts_--`
abbrev pub discount : ℕ → Option Transaction → ℕ
discount ongoing slot = if counted slot then sub64 ongoing 1 else ongoing

-- The `n` entries of the queue from entry `i` on are no longer in flight.
pub discount_from : Ifq Transaction → ℕ → ℕ → ℕ → Option ℕ
discount_from q i zero ongoing = some ongoing
discount_from q i (suc n) ongoing = do
  slot ← Ifq.at q i
  discount_from q (i + 1) n (discount ongoing slot)

-- Every request in flight becomes an orphan, and all redirects end.
pub flushed_fetch : FetchState → ℕ → FetchState
flushed_fetch f now = record f {
  resp_is_orphan = map (λ is_orphan. true) f.resp_is_orphan;
  wp_flushed = true;
  wp_redirect_s1 = false;
  wp_redirect_s2 = false;
  early_redir_remaining = 0;
  resume_tick = u64 (now + branch_miss_penalty);
}

abbrev pub recovering : Tally → ℕ → Tally
recovering t now =
    let flushed = Stall.flush_stall_cycles t now in
    record flushed { stall = record flushed.stall { in_br_recovery = true } }

-- What both flushes of the front end do.
unfoldable pub flush_front : {P C : Type 0} → Core P C → ℕ → Option (Core P C)
flush_front c now = do
  ongoing ← discount_from c.fetch_queue 0 c.fetch_queue.cnt c.ongoing_insts
  queue ← Ifq.clear c.fetch_queue
  some (record (set_slot c fetch none) {
    ongoing_insts = discount ongoing c.sim_pipe.in_fetch;
    fetch_queue = queue;
    fetch_state = flushed_fetch c.fetch_state now;
    tally = recovering c.tally now;
  })

-- When the result of an instruction without memory access is ready.
abbrev pub forward_time : TraceInst → ℕ → ℕ
forward_time inst now =
    if is_set inst.is_branch && not (inst.dst_reg == 0) then u64 (now + 2) else now

-- `MulLat` and `DivLat`
abbrev pub mul_lat : ℕ
mul_lat = 4

abbrev pub div_lat : ℕ
div_lat = 34

module _ {P C : Type 0} (api : BranchPred P) where
  -- A branch in Execute trains the unit; a misprediction flushes the front end.
  resolve : Core P C → Transaction → ℕ → Option (Core P C)
  resolve c t now = do
    let inst = t.trace_inst
    let taken = is_set inst.br_taken
    let target = if taken then inst.mem_addr else 0
    let is_call = inst.dst_reg == 1
    let is_ret = inst.src_reg0 == 1 && inst.dst_reg == 0
    let btb_hit = not (t.br_pred.pred_target == 0)
    bpu ← Unit.update api c.bpu inst.pc taken target is_call is_ret btb_hit t.br_pred t.br_mispred
    let c1 = record c { bpu = bpu }
    let flushed = flush_front c1 now
    if t.br_mispred then flushed else some c1

  clear_entry : Core P C → ℕ → Option (Core P C)
  clear_entry c pc = do bpu ← Unit.clear_btb_entry c.bpu pc; some (record c { bpu = bpu })

  -- A BTB hit of an instruction that is no branch.
  pub flush_non_branch : Core P C → Transaction → ℕ → Option (Core P C)
  unfolding clear_entry
  flush_non_branch c t now = do
    let pc = t.trace_inst.pc
    let had_btb_hit = not (t.br_pred.pred_target == 0)
    let trained = Unit.update api c.bpu pc false 0 false false true t.br_pred t.br_mispred
    bpu ← if had_btb_hit then trained else some c.bpu
    let c1 = record c { bpu = bpu }
    let cleared = clear_entry c1 pc
    let flushed = cleared >>= λ d. flush_front d now
    if t.br_mispred then flushed else if had_btb_hit then cleared else some c1

  unfoldable pub flush_false_btb_hit : Core P C → Transaction → ℕ → Option (Core P C)
  flush_false_btb_hit c t now =
      let flushed = flush_non_branch c t now in
      if is_set t.trace_inst.is_branch then some c else flushed

  execute_inst : Core P C → Transaction → ℕ → Option (Core P C)
  unfolding resolve
  execute_inst c t now = do
    let inst = t.trace_inst
    let resolved = resolve c t now
    c1 ← if is_set inst.is_branch then resolved else some c
    c2 ← flush_false_btb_hit c1 t now
    let forwarded = update_reg_time c2 inst.dst_reg (forward_time inst now) now
    c3 ← if inst.mem_op == mem_none then forwarded else some c2
    schedule (move c3 decode execute) execute (u64 (now + 1)) now

  pub do_execute : Core P C → ℕ → Option (Core P C)
  unfolding execute_inst
  do_execute c now = do
    assert (leb c.stage_update.in_decode now)
    t ← c.sim_pipe.in_decode
    let executed = execute_inst c t now
    if is_set t.trace_inst.ext_op then some c else executed

  start_mul : Core P C → Transaction → ℕ → Option (Core P C)
  start_mul c t now = do
    c1 ← flush_false_btb_hit c t now
    let ready = u64 (now + mul_lat)
    c2 ← update_reg_time (record c1 { mul_ready_tick = ready }) t.trace_inst.dst_reg ready now
    c3 ← schedule c2 int_mul_ext ready now
    c4 ← async_schedule c3 write_back ready now
    some (move c4 decode int_mul_ext)

  pub do_mul_ext : Core P C → ℕ → Option (Core P C)
  unfolding start_mul
  do_mul_ext c now = do
    assert (leb c.stage_update.in_decode now)
    t ← c.sim_pipe.in_decode
    let started = start_mul c t now
    let op = t.trace_inst.ext_op
    if op == int_mul_h || op == int_mul_l then started else some c

  start_div : Core P C → Transaction → ℕ → Option (Core P C)
  start_div c t now = do
    c1 ← flush_false_btb_hit c t now
    let ready = u64 (now + div_lat)
    c2 ← update_reg_time (record c1 { div_ready_tick = ready }) t.trace_inst.dst_reg ready now
    c3 ← schedule c2 int_div_ext ready now
    c4 ← async_schedule c3 write_back ready now
    some (move c4 decode int_div_ext)

  pub do_div_ext : Core P C → ℕ → Option (Core P C)
  unfolding start_div
  do_div_ext c now = do
    assert (leb c.stage_update.in_decode now)
    t ← c.sim_pipe.in_decode
    let started = start_div c t now
    let op = t.trace_inst.ext_op
    if op == int_div || op == int_rem then started else some c
