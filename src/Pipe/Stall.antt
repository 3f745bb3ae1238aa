-- ===== src/Pipe/Stall.antt =====
-- pipeSim/Pipeline.hh and Pipeline.cc: how cycles are attributed to causes of stall, on the
-- statistics and the attribution state together.
pub mod Balance
mod Tests
use ysyx_np_sim.Prelude.{ℕ, ◌+◌, ◌-◌, Bool, false, not, ◌&&◌, if◌then◌else◌, leb, u64, incr}
use ysyx_np_sim.Pipe.Types.{
  StallCause, no_stall, stall_no_inst, lsu_stall, br_mispred, raw, same_cause, PipelineStats,
  StallAttr, sub64,
}
use ysyx_np_sim.Pipe.Types

pub record Tally : Type 0 where
  pub stats : PipelineStats
  pub stall : StallAttr

unfoldable pub init : Tally
init = record {
  stats = record {
    insts = 0;
    cycles = 0;
    nostall = 0;
    noinst = 0;
    lsu_stall = 0;
    brmiss_stall = 0;
    raw_stall = 0;
    wp_bpu_queries = 0;
    wp_btb_hits = 0;
    wp_redirects = 0;
    early_redirects = 0;
  };
  stall = record { last_tick = 0; reset_tick = 0; cause = stall_no_inst; in_br_recovery = false };
}

-- The `switch` over the cause.
pub charge : PipelineStats → StallCause → ℕ → PipelineStats
charge s lsu_stall gap = record s { lsu_stall = u64 (s.lsu_stall + gap) }
charge s raw gap = record s { raw_stall = u64 (s.raw_stall + gap) }
charge s br_mispred gap = record s { brmiss_stall = u64 (s.brmiss_stall + gap) }
charge s no_stall gap = record s { noinst = u64 (s.noinst + gap) }
charge s stall_no_inst gap = record s { noinst = u64 (s.noinst + gap) }

-- During the recovery from a branch every other cause counts as a misprediction.
abbrev pub charged_cause : StallAttr → StallCause → StallCause
charged_cause a cause =
    if a.in_br_recovery && not (same_cause cause no_stall) then br_mispred else cause

pub flush_stall_cycles : Tally → ℕ → Tally
unfolding charge
flush_stall_cycles t until =
    let gap = until - t.stall.last_tick in
    if leb until t.stall.last_tick then t else record {
      stats = charge t.stats (charged_cause t.stall t.stall.cause) gap;
      stall = record t.stall { last_tick = until };
    }

pub set_stall : Tally → StallCause → ℕ → Tally
unfolding flush_stall_cycles
set_stall t new_cause now =
    let cause = charged_cause t.stall new_cause in
    let flushed = flush_stall_cycles t now in
    if same_cause cause t.stall.cause
    then t
    else record flushed { stall = record flushed.stall { cause = cause } }

-- What the write-back of an instruction does to the tally; `mispred` is the instruction's, and
-- `lsu_waits` says that the instruction in Execute waits for memory.
pub commit : Tally → ℕ → Bool → Bool → Tally
unfolding flush_stall_cycles
commit t now mispred lsu_waits =
    let flushed = flush_stall_cycles t now in
    record {
      stats = record flushed.stats {
        nostall = incr flushed.stats.nostall;
        insts = incr flushed.stats.insts;
        cycles = sub64 now t.stall.reset_tick;
      };
      stall = record flushed.stall {
        last_tick = incr now;
        in_br_recovery = false;
        cause = if mispred then br_mispred else if lsu_waits then lsu_stall else stall_no_inst;
      };
    }

pub reset : Tally → ℕ → Tally
reset t now = record {
  stats = Types.reset_stats t.stats;
  stall = record {
    last_tick = now;
    reset_tick = now;
    cause = stall_no_inst;
    in_br_recovery = false;
  };
}
