-- ===== src/Main/Tests.antt =====
-- Runs of the simulation loop, over a core with caches that answer a read in the next tick.
use ysyx_np_sim.Prelude.{
  ℕ, zero, suc, ◌+◌, ◌≡◌, refl, true, Option, none, some, List, [], ◌∷◌, arith, ◌>>=◌, ◌++◌,
  Ensures,
}
use ysyx_np_sim.Mem.Types.{read}
use ysyx_np_sim.Trace.{TraceInst, no_inst}
use ysyx_np_sim.Branch.Unit
use ysyx_np_sim.Branch.Interface.{no_bpu}
use ysyx_np_sim.Pipe.Core.{Core, Ports, Port}
use ysyx_np_sim.Pipe.Core
use ysyx_np_sim.Main.{Clocked, Machine, Loop, start, run, sys_dump_stats}
use ysyx_np_sim.Main.Fed.{Feeds}
use ysyx_np_sim.Main.Feed.{Progress}
use ysyx_np_sim.Main.Stops.{Stops}
use ysyx_np_sim.Main.Runs.{RunEnsures, run-Progress, run-stopped}
use ysyx_np_sim.Main.Ends.{EndsBy, run-ends}
use ysyx_np_sim.Main.System.{
  Device, memory, dmem_bypass, dcache, icache, CpuEvent, responded, acknowledged, Devices, machine,
}
use ysyx_np_sim.Main.Drained.{Completes, run-Completes}

-- The state is the number of reads without an answer.
abbrev caches : Ports ℕ
caches = record {
  is_ready = λ c port. (true, true);
  read_req = λ c port addr now. some (c + 1);
  write_req = λ c port addr word strb now. some (c, []);
}

answer_one : ℕ → Option (ℕ × List CpuEvent)
answer_one zero = some (0, [])
answer_one (suc c) = some (
  c,
  responded (record { addr = 0; word = 0; id = 0; mop = read })
      ∷ acknowledged (record { id = 0; mop = read })
      ∷ [],
)

answer_for : Device → ℕ → Option (ℕ × List CpuEvent)
answer_for icache c = answer_one c
answer_for dcache c = some (c, [])
answer_for dmem_bypass c = some (c, [])
answer_for memory c = some (c, [])

abbrev answers : Devices ℕ
answers = record {
  next_update = λ device c. 0;
  update_impl = λ device c now. answer_for device c;
  flush_all = λ port c. c;
  reset_stats = λ c. c;
}

abbrev core : Core ℕ ℕ
core = Core.init (Unit.init 0 none 0) 0 true 8 3 0

abbrev trace : List TraceInst
trace =
    record no_inst { pc = 0x80; dst_reg = 5 }
    ∷ record no_inst { pc = 0x84; src_reg0 = 5; dst_reg = 6 }
    ∷ record no_inst { pc = 0x88; sys_op = sys_dump_stats }
    ∷ record no_inst { pc = 0x8c }
    ∷ []

abbrev begun : Loop (Core ℕ ℕ)
begun = start core trace no_inst

run-Completes_example : Completes 100 50 (run (machine no_bpu caches answers) 100 50 50 begun)
run-Completes_example =
    run-Completes no_bpu caches answers 100 50 49 (Unit.init 0 none 0) 0 true 8 3 0 trace no_inst
      (omega arith) (omega arith) (omega arith)

run-ends_example :
    EndsBy
      (machine no_bpu caches answers)
      50
      0
      (run (machine no_bpu caches answers) 100 50 50 begun)
unfolding start
run-ends_example =
    run-ends (machine no_bpu caches answers) 100 50 49 begun (omega arith) (omega arith)

-- The machine with a list of what it was fed.
abbrev Logged : Type 0
Logged = Core ℕ ℕ × List TraceInst

abbrev logged_update : Clocked (Core ℕ ℕ) → Clocked Logged
logged_update d = record {
  next_update = λ m. d.next_update m.0;
  update_impl = λ m now. d.update_impl m.0 now >>= λ k. some (k, m.1);
}

abbrev logged : Machine (Core ℕ ℕ) → Machine Logged
logged api = record {
  memory = logged_update api.memory;
  dmem_bypass = logged_update api.dmem_bypass;
  dcache = logged_update api.dcache;
  icache = logged_update api.icache;
  core = logged_update api.core;
  inst_avail = λ m. api.inst_avail m.0;
  feed_inst = λ m t now. api.feed_inst m.0 t now >>= λ k. some (k, m.1 ++ (t ∷ []));
  set_draining = λ m. (api.set_draining m.0, m.1);
  is_finished = λ m. api.is_finished m.0;
  flush_icache = λ m. (api.flush_icache m.0, m.1);
  flush_dcache = λ m. (api.flush_dcache m.0, m.1);
  flush_bypass = λ m. (api.flush_bypass m.0, m.1);
  reset_stats = λ m now. (api.reset_stats m.0 now, m.1);
}

updated :
    (o : Option (Core ℕ ℕ)) (log : List TraceInst)
    → Ensures (o >>= λ k. some (k, log)) (λ (m : Logged). m.1 ≡ log)
updated none log = tt
updated (some k) log = refl

logged-Feeds : (api : Machine (Core ℕ ℕ)) → Feeds (logged api) (λ m. m.1)
logged-Feeds api = record {
  memory = λ m now. updated (api.memory.update_impl m.0 now) m.1;
  dmem_bypass = λ m now. updated (api.dmem_bypass.update_impl m.0 now) m.1;
  dcache = λ m now. updated (api.dcache.update_impl m.0 now) m.1;
  icache = λ m now. updated (api.icache.update_impl m.0 now) m.1;
  core = λ m now. updated (api.core.update_impl m.0 now) m.1;
  feeds = λ m t now. updated (api.feed_inst m.0 t now) (m.1 ++ (t ∷ []));
  drains = λ m. refl;
  flushes = λ m. refl;
  resets = λ m now. refl;
}

run-Progress_example :
    RunEnsures
      (Progress (λ (m : Logged). m.1) [] 100 trace)
      (run (logged (machine no_bpu caches answers)) 100 50 50 (start (core, []) trace no_inst))
run-Progress_example =
    run-Progress (logged (machine no_bpu caches answers)) (λ m. m.1) 100 50 50 (core, []) trace
      no_inst (logged-Feeds (machine no_bpu caches answers)) (omega arith)

run-stopped_example : RunEnsures (Stops trace) (run (machine no_bpu caches answers) 100 50 50 begun)
run-stopped_example = run-stopped (machine no_bpu caches answers) 100 50 50 core trace no_inst
