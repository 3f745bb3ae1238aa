-- ===== src/Pipe/Stall/Balance.antt =====
-- pipeSim/Pipeline.hh: the breakdown of the cycles by their cause.
use ysyx_np_sim.Prelude.{
  ℕ, ◌+◌, ◌-◌, ◌^◌, ◌%◌, ◌≤◌, ◌<◌, ◌≡◌, refl, Bool, true, false, ◌⊎◌, inl, inr, arith, Bool-cases,
  leb,
}
use ysyx_np_sim.Pipe.Types.{
  PipelineStats, StallCause, no_stall, stall_no_inst, lsu_stall, br_mispred, raw, same_cause,
}
use ysyx_np_sim.Pipe.Types
use ysyx_np_sim.Pipe.Stall.{
  Tally, charge, charged_cause, flush_stall_cycles, set_stall, commit, reset,
}

-- The sum of the breakdown.
abbrev pub total : PipelineStats → ℕ
total s = s.nostall + s.noinst + s.lsu_stall + s.brmiss_stall + s.raw_stall

-- Every cycle from the last reset to the last attribution has one cause; the counters wrap.
abbrev pub IsBalanced : Tally → Type 0
IsBalanced t = (total t.stats + t.stall.reset_tick) % 2 ^ 64 ≡ t.stall.last_tick % 2 ^ 64

charge-total :
    (s : PipelineStats) (cause : StallCause) (gap : ℕ)
    → total (charge s cause gap) % 2 ^ 64 ≡ (total s + gap) % 2 ^ 64
unfolding charge
charge-total s no_stall gap = omega arith
charge-total s stall_no_inst gap = omega arith
charge-total s lsu_stall gap = omega arith
charge-total s br_mispred gap = omega arith
charge-total s raw gap = omega arith

flush-IsBalanced : (t : Tally) (until : ℕ) → IsBalanced t → IsBalanced (flush_stall_cycles t until)
unfolding flush_stall_cycles
flush-IsBalanced t until h = go (leb until t.stall.last_tick) refl
  where
    go : (b : Bool) → leb until t.stall.last_tick ≡ b → IsBalanced (flush_stall_cycles t until)
    go true e = rw e h
    go false e =
        let cause = charged_cause t.stall t.stall.cause in
        let gap = until - t.stall.last_tick in
        let later : t.stall.last_tick ≤ until = ground arith in
        let c : total (charge t.stats cause gap) % 2 ^ 64 ≡ (total t.stats + gap) % 2 ^ 64 =
          charge-total t.stats cause gap in
        rw e (omega arith)

flush-ticks :
    (t : Tally) (now : ℕ)
    → t.stall.last_tick ≤ now
    → ((flush_stall_cycles t now).stall.last_tick ≡ now)
      × ((flush_stall_cycles t now).stall.reset_tick ≡ t.stall.reset_tick)
unfolding flush_stall_cycles
flush-ticks t now h = go (leb now t.stall.last_tick) refl
  where
    go :
        (b : Bool)
        → leb now t.stall.last_tick ≡ b
        → ((flush_stall_cycles t now).stall.last_tick ≡ now)
          × ((flush_stall_cycles t now).stall.reset_tick ≡ t.stall.reset_tick)
    go true e = rw e (ground arith, refl)
    go false e = rw e (refl, refl)

-- Attributing cycles, a new cause and a reset keep the breakdown balanced.
pub attribution-IsBalanced :
    (t : Tally) (now : ℕ) (cause : StallCause)
    → IsBalanced t
    → IsBalanced (flush_stall_cycles t now)
      × IsBalanced (set_stall t cause now)
      × IsBalanced (reset t now)
unfolding set_stall reset Types.reset_stats
attribution-IsBalanced t now cause h = (flush-IsBalanced t now h, set (Bool-cases _), omega arith)
  where
    set :
        (same_cause (charged_cause t.stall cause) t.stall.cause ≡ true)
          ⊎ (same_cause (charged_cause t.stall cause) t.stall.cause ≡ false)
        → IsBalanced (set_stall t cause now)
    set (inl e) = rw e h
    set (inr e) = rw e (flush-IsBalanced t now h)

-- A write-back closes the tick: the breakdown stays balanced, and its sum is one more than the
-- cycles that it sets.
pub commit-IsBalanced :
    (t : Tally) (now : ℕ) (mispred lsu_waits : Bool)
    → IsBalanced t
    → t.stall.last_tick ≤ now
    → t.stall.reset_tick ≤ now
    → now < 2 ^ 64
    → IsBalanced (commit t now mispred lsu_waits)
      × (total (commit t now mispred lsu_waits).stats % 2 ^ 64
          ≡ ((commit t now mispred lsu_waits).stats.cycles + 1) % 2 ^ 64)
unfolding commit
commit-IsBalanced t now mispred lsu_waits h le le' lt =
    let (last, start) = flush-ticks t now le in
    let b = flush-IsBalanced t now h in (omega arith, omega arith)
