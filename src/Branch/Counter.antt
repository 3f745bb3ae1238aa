-- ===== src/Branch/Counter.antt =====
-- The 2-bit saturating counters of branchSim/Bimodal.cc, and the tables of them.
use ysyx_np_sim.Prelude.{ℕ, ◌+◌, ◌-◌, ◌≤◌, Bool, not, ◌&&◌, if◌then◌else◌, ltb, leb, arith}

-- `if (cnt < 3) cnt++`
abbrev pub count_up : ℕ → ℕ
count_up cnt = if ltb cnt 3 then cnt + 1 else cnt

-- `if (cnt > 0) cnt--`
abbrev pub count_down : ℕ → ℕ
count_down cnt = if ltb 0 cnt then cnt - 1 else cnt

-- `if (taken) { if (cnt < 3) cnt++; } else { if (cnt > 0) cnt--; }`
abbrev pub count : Bool → ℕ → ℕ
count taken cnt = if taken then count_up cnt else count_down cnt

-- The new counter of the bimodal and gshare tables: a first taken branch starts at 2.
abbrev pub next_cnt : Bool → Bool → ℕ → ℕ
next_cnt taken btb_hit old_cnt =
    if taken && not btb_hit
    then 2
    else if taken
    then (if ltb old_cnt 3 then old_cnt + 1 else 3)
    else (if ltb 0 old_cnt then old_cnt - 1 else 0)

-- `cnt >= 2`
abbrev pub taken_of : ℕ → Bool
taken_of cnt = leb 2 cnt

abbrev pub IsCnt : ℕ → Type 0
IsCnt c = c ≤ 3

pub count-IsCnt : (taken : Bool) (c : ℕ) → IsCnt c → IsCnt (count taken c)
count-IsCnt taken c h = ground arith

pub next_cnt-IsCnt : (taken btb_hit : Bool) (c : ℕ) → IsCnt c → IsCnt (next_cnt taken btb_hit c)
next_cnt-IsCnt taken btb_hit c h = ground arith
