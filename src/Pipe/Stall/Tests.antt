-- ===== src/Pipe/Stall/Tests.antt =====
-- The theorems on the breakdown of the cycles, at a run of twelve ticks.
use ysyx_np_sim.Prelude.{◌+◌, ◌^◌, ◌%◌, ◌≡◌, refl, true, false, arith}
use ysyx_np_sim.Pipe.Types.{lsu_stall, raw}
use ysyx_np_sim.Pipe.Stall.{Tally, init, charge, flush_stall_cycles, set_stall, commit}
use ysyx_np_sim.Pipe.Stall.Balance.{total, IsBalanced, commit-IsBalanced}

-- Three ticks without an instruction, four behind a register, and a load until tick 9.
abbrev waiting : Tally
waiting = set_stall (set_stall (set_stall init raw 3) lsu_stall 7) raw 9

waiting-IsBalanced : IsBalanced waiting
unfolding init charge flush_stall_cycles set_stall
waiting-IsBalanced = refl

waiting-total : total waiting.stats ≡ 9
unfolding init charge flush_stall_cycles set_stall
waiting-total = refl

commit-IsBalanced_example :
    IsBalanced (commit waiting 11 false true)
    × (total (commit waiting 11 false true).stats % 2 ^ 64
        ≡ ((commit waiting 11 false true).stats.cycles + 1) % 2 ^ 64)
unfolding init charge flush_stall_cycles set_stall
commit-IsBalanced_example =
    commit-IsBalanced waiting 11 false true waiting-IsBalanced (omega arith) (omega arith)
      (omega arith)
