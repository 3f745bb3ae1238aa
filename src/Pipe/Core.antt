-- ===== src/Pipe/Core.antt =====
-- pipeSim/Pipeline.hh and Pipeline.cc: the state of `Pipeline`, its base class's included, and its
-- schedule. `none` is a failed assertion, a null pointer that is followed, or `.at` out of range;
-- `curr_tick()` is the argument `now`.
pub mod Frame
pub mod Alike
use ysyx_np_sim.Prelude.{
  ℕ, ◌+◌, min, max, Bool, true, false, not, ◌&&◌, ◌||◌, Option, none, some, List, ◌>>=◌, ◌>>◌,
  assert, if◌then◌else◌, ltb, leb, ◌==◌, get_elem?, set_at, replicate, u64,
}
use ysyx_np_sim.Mem.Types.{CpuTrans}
use ysyx_np_sim.Trace.{TraceInst, is_set}
use ysyx_np_sim.Branch.Unit.{BranchUnit}
use ysyx_np_sim.Pipe.Types.{
  Transaction, FetchState, PerStage, PipeStage, StallCause, fetch, decode, execute, int_mul_ext,
  int_div_ext, memory, write_back, inf_time, init_fetch, get, put, everywhere,
}
use ysyx_np_sim.Pipe.Ifq.{Ifq}
use ysyx_np_sim.Pipe.Ifq
use ysyx_np_sim.Pipe.Stall.{Tally}
use ysyx_np_sim.Pipe.Stall

-- The three pointers to caches: `imem`, `dmem` and `dmem_nc`.
pub data Port : Type 0 where
  imem dmem dmem_nc : Port

-- What the core calls of `CacheBase`, on the state `C` of the caches and the memory behind them:
-- `is_ready()`, `read_req(addr)` and `write_req(addr, data, strb)`. The list holds the responses
-- that a cache sends from inside `write_req`; no cache sends one from inside `read_req`.
pub record Ports (C : Type 0) : Type 0 where
  pub is_ready : C → Port → Bool × Bool
  pub read_req : C → Port → ℕ → ℕ → Option C
  pub write_req : C → Port → ℕ → ℕ → ℕ → ℕ → Option (C × List CpuTrans)

pub record Core (P C : Type 0) : Type 0 where
  pub bpu : BranchUnit P
  pub ports : C
  -- Whether the port `dmem_nc` is set; the other two are.
  pub has_nc : Bool
  pub is_draining : Bool
  pub tally : Tally
  pub input_buffer : Option Transaction
  pub sim_pipe : PerStage (Option Transaction)
  pub reg_ready : List ℕ
  pub stage_update : PerStage ℕ
  pub ongoing_insts : ℕ
  pub calc_nxtupd : ℕ
  pub fetch_queue : Ifq Transaction
  pub fetch_state : FetchState
  pub mmio_resp_tick : ℕ
  pub mmio_lat : ℕ
  pub mul_ready_tick : ℕ
  pub div_ready_tick : ℕ

abbrev pub present : {A : Type 0} → Option A → Bool
present none = false
present (some a) = true

-- The instruction is there and waits for memory.
abbrev pub waits : Option Transaction → Bool
waits none = false
waits (some t) = t.wait_mem

-- The earlier of the two, if `t` is still to come.
abbrev pub sooner : ℕ → ℕ → ℕ → ℕ
sooner now mins t = if ltb now t then min mins t else mins

abbrev pub next_stage : PerStage ℕ → ℕ → ℕ
next_stage s now =
    let m0 = sooner now inf_time s.in_fetch in
    let m1 = sooner now m0 s.in_decode in
    let m2 = sooner now m1 s.in_execute in
    let m3 = sooner now m2 s.in_mul in
    let m4 = sooner now m3 s.in_div in
    let m5 = sooner now m4 s.in_memory in sooner now m5 s.in_write_back

-- The front end wants to run again in the next tick.
abbrev pub fetch_active : FetchState → ℕ → Bool
fetch_active f now = f.wrong_path || ltb 0 f.early_redir_remaining || ltb now f.resume_tick

module _ {P C : Type 0} where
  -- The constructor leaves `calc_nxtupd_` unset: it is the last argument.
  unfoldable pub init : BranchUnit P → C → Bool → ℕ → ℕ → ℕ → Core P C
  init bpu ports has_nc ifq_size mmio_lat unset = record {
    bpu = bpu;
    ports = ports;
    has_nc = has_nc;
    is_draining = false;
    tally = Stall.init;
    input_buffer = none;
    sim_pipe = everywhere none;
    reg_ready = replicate 32 0;
    stage_update = everywhere 0;
    ongoing_insts = 0;
    calc_nxtupd = unset;
    fetch_queue = Ifq.init ifq_size;
    fetch_state = init_fetch;
    mmio_resp_tick = inf_time;
    mmio_lat = mmio_lat;
    mul_ready_tick = 0;
    div_ready_tick = 0;
  }

  unfoldable pub schedule : Core P C → PipeStage → ℕ → ℕ → Option (Core P C)
  schedule c stage when now = do
    assert (leb now when)
    some (record c { stage_update = put stage when c.stage_update })

  unfoldable pub async_schedule : Core P C → PipeStage → ℕ → ℕ → Option (Core P C)
  unfolding schedule
  async_schedule c stage when now = do
    c1 ← schedule c stage when now
    some (record c1 { calc_nxtupd = min c1.calc_nxtupd when })

  unfoldable pub calc_sched : Core P C → ℕ → Core P C
  calc_sched c now =
      let mins = min (next_stage c.stage_update now) c.mmio_resp_tick in
      record c {
        calc_nxtupd = if fetch_active c.fetch_state now then min mins (u64 (now + 1)) else mins;
      }

  unfoldable pub prev_stage_valid : Core P C → PipeStage → ℕ → Bool
  prev_stage_valid c fetch now = true
  prev_stage_valid c decode now = present c.sim_pipe.in_fetch
  prev_stage_valid c execute now = present c.sim_pipe.in_decode
  prev_stage_valid c int_mul_ext now = present c.sim_pipe.in_decode
  prev_stage_valid c int_div_ext now = present c.sim_pipe.in_decode
  prev_stage_valid c memory now = present c.sim_pipe.in_execute
  prev_stage_valid c write_back now =
      present c.sim_pipe.in_memory
      || (present c.sim_pipe.in_mul && leb c.mul_ready_tick now)
      || (present c.sim_pipe.in_div && leb c.div_ready_tick now)

  -- `sim_pipe_.at(stage) = slot`
  abbrev pub set_slot : Core P C → PipeStage → Option Transaction → Core P C
  set_slot c stage slot = record c { sim_pipe = put stage slot c.sim_pipe }

  -- `sim_pipe_.at(to) = std::move(sim_pipe_.at(from))`
  abbrev pub move : Core P C → PipeStage → PipeStage → Core P C
  move c from to = set_slot (set_slot c to (get from c.sim_pipe)) from none

  abbrev pub stall : Core P C → StallCause → ℕ → Core P C
  stall c cause now = record c { tally = Stall.set_stall c.tally cause now }

  -- The later of the times when the instruction's two sources are ready.
  pub ready_time : Core P C → TraceInst → Option ℕ
  ready_time c inst = do
    r0 ← get_elem? c.reg_ready inst.src_reg0
    r1 ← get_elem? c.reg_ready inst.src_reg1
    some (max r0 r1)

  retry_decode : Core P C → TraceInst → ℕ → Option (Core P C)
  unfolding ready_time
  retry_decode c inst now = do
    ready ← ready_time c inst
    schedule c decode (if leb ready now then u64 (now + 1) else ready) now

  -- Decode is tried again if it was blocked for a register.
  wake_decode : Core P C → Option Transaction → ℕ → Option (Core P C)
  unfolding retry_decode
  wake_decode c none now = some c
  wake_decode c (some t) now =
      let retried = retry_decode c t.trace_inst now in
      if c.stage_update.in_decode == inf_time
        && (is_set t.trace_inst.src_reg0 || is_set t.trace_inst.src_reg1)
      then retried
      else some c

  pub update_reg_time : Core P C → ℕ → ℕ → ℕ → Option (Core P C)
  unfolding wake_decode
  update_reg_time c rd when now = do
    let written = set_at c.reg_ready rd when
    regs ← if is_set rd then written else some c.reg_ready
    c1 ← wake_decode (record c { reg_ready = regs }) c.sim_pipe.in_fetch now
    r0 ← get_elem? c1.reg_ready 0
    assert (r0 == 0)
    some c1

  abbrev pub inst_avail : Core P C → Bool
  inst_avail c = not (present c.input_buffer) && not c.is_draining

  abbrev pub is_finished : Core P C → Bool
  is_finished c = c.ongoing_insts == 0

  unfoldable pub set_draining : Core P C → Core P C
  set_draining c = record c { is_draining = true }

  pub next_update : Core P C → ℕ
  next_update c = c.calc_nxtupd

  unfoldable pub reset_stats : Core P C → ℕ → Core P C
  reset_stats c now = record c { tally = Stall.reset c.tally now }
