-- ===== src/Trace/Tests.antt =====
-- The theorem on the counters, at a trace of four instructions.
use ysyx_np_sim.Prelude.{◌≡◌, refl, List, [], ◌∷◌}
use ysyx_np_sim.Trace.{TraceInst, no_inst, mem_load, mem_store, reset, tally}
use ysyx_np_sim.Trace.Counts.{tallies}

abbrev trace : List TraceInst
trace =
    record no_inst { mem_op = mem_load; dst_reg = 5 }
    ∷ record no_inst { is_branch = 1; br_taken = 1; mem_addr = 0x80000000 }
    ∷ record no_inst { is_branch = 1 }
    ∷ record no_inst { mem_op = mem_store }
    ∷ []

trace-stores : (tallies reset trace).stores ≡ 1
unfolding tallies tally reset
trace-stores = refl
