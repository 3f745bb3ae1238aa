-- ===== src/Mem/Sdram/Refresh.antt =====
-- Refresh of the SDRAM model.
use ysyx_np_sim.Prelude.{
  ℕ, ◌+◌, ◌*◌, ◌/◌, ◌^◌, ◌≤◌, ◌<◌, ◌≡◌, refl, false, some, List, [], ◌∷◌, map, arith, lt→ltb,
  le→not-ltb, Returns, Returns-map, All, u64,
}
use ysyx_np_sim.Mem.Sdram.{
  Sdram, Bank, refresh_period, close, missed_refreshes, check_refresh, reset_stats,
}

-- No bank has an open row.
abbrev pub AllClosed : Sdram → Type 0
AllClosed s = All (All (λ bk. bk.is_open ≡ false)) s.banks

close_banks : (xs : List Bank) → All (λ bk. bk.is_open ≡ false) (map close xs)
unfolding close
close_banks [] = tt
close_banks (x ∷ xs) = (refl, close_banks xs)

close_all : (xs : List (List Bank)) → All (All (λ bk. bk.is_open ≡ false)) (map (map close) xs)
close_all [] = tt
close_all (x ∷ xs) = (close_banks x, close_all xs)

pub before_refresh :
    (s : Sdram) (dev_tick : ℕ) → dev_tick < s.next_refresh_tick → check_refresh s dev_tick ≡ some s
unfolding check_refresh
before_refresh s dev_tick h = rw (lt→ltb dev_tick s.next_refresh_tick h) refl

-- What a check that is due leaves behind, with `n` the refresh periods that it counts.
pub record Refreshed (s : Sdram) (dev_tick n : ℕ) (s' : Sdram) : Type 0 where
  pub closed : AllClosed s'
  pub later : dev_tick < s'.next_refresh_tick
  pub soon : s'.next_refresh_tick ≤ dev_tick + refresh_period
  pub whole : s'.next_refresh_tick ≡ s.next_refresh_tick + n * refresh_period
  pub counted : s'.refresh_count ≡ u64 (s.refresh_count + n)

-- When a refresh is due and the ticks stay within an `int`, the check fails nowhere, closes every
-- bank, counts the refresh periods that began, and moves the due time by as many whole periods, to
-- the first due time after the current tick.
pub check_refresh_due :
    (s : Sdram) (dev_tick : ℕ)
    → s.next_refresh_tick ≤ dev_tick
    → dev_tick + refresh_period < 2 ^ 31
    → Returns
        (check_refresh s dev_tick)
        (Refreshed s dev_tick (missed_refreshes dev_tick s.next_refresh_tick))
unfolding check_refresh
check_refresh_due s dev_tick due h =
    rw (le→not-ltb dev_tick s.next_refresh_tick due, lt→ltb next (2 ^ 31) (omega arith))
      (record {
        closed = close_all s.banks;
        later = omega arith;
        soon = omega arith;
        whole = refl;
        counted = refl;
      })
  where
    next : ℕ
    next = s.next_refresh_tick + missed_refreshes dev_tick s.next_refresh_tick * refresh_period

-- The statistics of a window are not those of the window: the first access at device tick `t` after
-- a reset counts every refresh since tick 0, `t / 781` of them, although the reset was at any time
-- up to `t`.
pub refresh_count_after_reset :
    (s : Sdram) (t : ℕ)
    → refresh_period ≤ t
    → t + refresh_period < 2 ^ 31
    → Returns (check_refresh (reset_stats s) t) (λ s'. s'.refresh_count ≡ t / refresh_period)
unfolding reset_stats
refresh_count_after_reset s t due h =
    Returns-map (Refreshed (reset_stats s) t (missed_refreshes t refresh_period)) _
      (check_refresh (reset_stats s) t) (check_refresh_due (reset_stats s) t due h)
      (λ s' r. omega (arith, r.counted))
