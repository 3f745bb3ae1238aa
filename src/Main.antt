-- ===== src/Main.antt =====
-- main.cc and defines/base.hh: the simulation loop of `main`, over the parts that it drives.
pub mod Fed
pub mod Feed
pub mod Stops
pub mod Runs
pub mod Ends
pub mod System
pub mod Calm
pub mod Drained
mod Tests
use ysyx_np_sim.Prelude.{
  ℕ, ◌+◌, zero, suc, Bool, true, false, not, ◌&&◌, ◌||◌, Option, none, some, List, [], ◌∷◌, ◌>>=◌,
  ◌>>◌, assert, if◌then◌else◌, ltb, leb, ◌==◌, u64, incr,
}
use ysyx_np_sim.Trace.{TraceInst, Sanitizer, tally}
use ysyx_np_sim.Trace

-- `SysOp`
abbrev pub sys_none : ℕ
sys_none = 0

abbrev pub sys_reset_stats : ℕ
sys_reset_stats = 1

abbrev pub sys_dump_stats : ℕ
sys_dump_stats = 2

abbrev pub sys_fence_i : ℕ
sys_fence_i = 3

-- `ClockedObject`: one object of a machine whose whole state is an `M`.
pub record Clocked (M : Type 0) : Type 0 where
  pub next_update : M → ℕ
  pub update_impl : M → ℕ → Option M

-- What the loop calls: the objects that have a clock, the core's side of the trace, and the calls
-- that an instruction's `sys_op` asks for. `reset_stats` goes through the whole `simlist`.
pub record Machine (M : Type 0) : Type 0 where
  pub memory : Clocked M
  pub dmem_bypass : Clocked M
  pub dcache : Clocked M
  pub icache : Clocked M
  pub core : Clocked M
  pub inst_avail : M → Bool
  pub feed_inst : M → TraceInst → ℕ → Option M
  pub set_draining : M → M
  pub is_finished : M → Bool
  pub flush_icache : M → M
  pub flush_dcache : M → M
  pub flush_bypass : M → M
  pub reset_stats : M → ℕ → M

-- The variables of `main`, the clock, and what the trace reader has not read yet.
pub record Loop (M : Type 0) : Type 0 where
  pub machine : M
  pub tick : ℕ
  pub trace : List TraceInst
  pub inst : TraceInst
  pub has_next : Bool
  pub stop_after_dump : Bool
  pub dump_cnt : ℕ
  pub inst_cnt : ℕ
  pub sanitizer : Sanitizer
  pub sanitizer_all : Sanitizer

-- How the loop ends: by its test, by a failed assertion, or not within the rounds allowed.
pub data Run (M : Type 0) : Type 0 where
  ended : Loop M → Run M
  faulted : Run M
  running : Loop M → Run M

-- `set_global_tick(curr_tick() + 1)`
unfoldable pub next_tick : ℕ → Option ℕ
next_tick tick = do assert (leb tick (u64 (tick + 1))); some (u64 (tick + 1))

module _ {M : Type 0} where
  unfoldable pub do_update : Clocked M → ℕ → M → Option M
  do_update d now m =
      let updated = d.update_impl m now in if leb (d.next_update m) now then updated else some m

  -- The variables at the start; `main` leaves `inst` unset.
  unfoldable pub start : M → List TraceInst → TraceInst → Loop M
  start m trace unset = record {
    machine = m;
    tick = 0;
    trace = trace;
    inst = unset;
    has_next = true;
    stop_after_dump = false;
    dump_cnt = 0;
    inst_cnt = 0;
    sanitizer = Trace.reset;
    sanitizer_all = Trace.reset;
  }

  -- Whether the loop may take another instruction of the trace.
  abbrev pub wants_next : ℕ → Loop M → Bool
  wants_next max_insts l = not l.stop_after_dump && l.has_next && ltb l.inst_cnt max_insts

module _ {M : Type 0} (api : Machine M) where
  -- The devices from the memory up to the core.
  unfoldable pub update_all : M → ℕ → Option M
  update_all m now =
      do_update api.memory now m
      >>= do_update api.dmem_bypass now
      >>= do_update api.dcache now
      >>= do_update api.icache now
      >>= do_update api.core now

  -- `reader.next(inst)` and what follows from it.
  unfoldable pub feed_next : Loop M → List TraceInst → Option (Loop M)
  feed_next l [] = some (record l { has_next = false; machine = api.set_draining l.machine })
  feed_next l (t ∷ ts) = do
    m ← api.feed_inst l.machine t l.tick
    some (record l {
      machine = m;
      trace = ts;
      inst = t;
      sanitizer = tally l.sanitizer t;
      sanitizer_all = tally l.sanitizer_all t;
      inst_cnt = incr l.inst_cnt;
    })

  unfoldable pub feed : ℕ → Loop M → Option (Loop M)
  unfolding feed_next
  feed max_insts l =
      let fed = feed_next l l.trace in
      let drained = some (record l { machine = api.set_draining l.machine }) in
      if api.inst_avail l.machine then (if wants_next max_insts l then fed else drained) else some l

  -- The three caches are flushed and run, in the tick that has just begun.
  unfoldable pub fence : M → ℕ → Option M
  fence m now =
      let flushed = api.flush_bypass (api.flush_dcache (api.flush_icache m)) in
      do_update api.icache now flushed
      >>= do_update api.dcache now
      >>= do_update api.dmem_bypass now

  -- What the instruction that was read last asks for, once.
  unfoldable pub serve : Loop M → Option (Loop M)
  unfolding fence
  serve l =
      let served = record l.inst { sys_op = sys_none } in
      let fenced = fence l.machine l.tick >>= λ m. some (record l { inst = served; machine = m }) in
      if l.inst.sys_op == sys_reset_stats
      then some (record l {
        inst = served;
        machine = api.reset_stats l.machine l.tick;
        sanitizer = Trace.reset;
      })
      else if l.inst.sys_op == sys_fence_i
      then fenced
      else if l.inst.sys_op == sys_dump_stats
      then some (record l { inst = served; dump_cnt = incr l.dump_cnt; stop_after_dump = true })
      else some l

  -- One round of the loop's body.
  unfoldable pub step : ℕ → Loop M → Option (Loop M)
  unfolding update_all feed serve
  step max_insts l = do
    m ← update_all l.machine l.tick
    l1 ← feed max_insts (record l { machine = m })
    t ← next_tick l1.tick
    serve (record l1 { tick = t })

  -- The loop's test, negated.
  abbrev pub is_over : ℕ → Loop M → Bool
  is_over max_ticks l = api.is_finished l.machine || not (ltb l.tick max_ticks)

  -- `do … while`, for at most so many rounds.
  unfoldable pub run : ℕ → ℕ → ℕ → Loop M → Run M
  unfolding step
  run max_insts max_ticks zero l = running l
  run max_insts max_ticks (suc rounds) l = elim (step max_insts l) [
    | none ↦ faulted
    | some l' ↦ elim (is_over max_ticks l') [
      | true ↦ ended l'
      | false ↦ run max_insts max_ticks rounds l'
    ]
  ]
