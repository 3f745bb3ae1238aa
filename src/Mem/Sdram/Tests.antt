-- ===== src/Mem/Sdram/Tests.antt =====
-- Runs of the SDRAM model.
use ysyx_np_sim.Prelude.{◌≡◌, refl, ◌<◌, false, Returns, arith}
use ysyx_np_sim.Mem.Sdram.{
  Sdram, closed_bank, init, bank_of, bank_at, host_of, check_refresh, access, reset_stats,
}
use ysyx_np_sim.Mem.Sdram.Refresh.{refresh_count_after_reset}
use ysyx_np_sim.Mem.Sdram.State.{IsValid, init-IsValid}
use ysyx_np_sim.Mem.Sdram.Latency.{Finds, Served, ends_at, dev_tick_of, access_latency}

-- 500 MHz
abbrev at_500 : Sdram
at_500 = init 500

at_500-IsValid : IsValid at_500
at_500-IsValid = init-IsValid 500 (omega arith)

Finds-closed : Finds at_500 (host_of 1) 0x80000000 0 closed_bank
unfolding init host_of bank_at bank_of
Finds-closed = record { free = refl; row = refl }

early : dev_tick_of at_500 1000 < at_500.next_refresh_tick
unfolding init
early = omega arith

small : dev_tick_of at_500 1000 < 2147483648
unfolding init
small = omega arith

ends : ends_at (dev_tick_of at_500 1000) 0 closed_bank 4 false 0x80000000 ≡ 213
unfolding init
ends = refl

ends_small : ends_at (dev_tick_of at_500 1000) 0 closed_bank 4 false 0x80000000 < 2147483648
unfolding init
ends_small = omega arith

access_latency_example : Returns (access at_500 0x80000000 4 false 1000 1) (λ x.
    Served at_500
      (host_of 1)
      0x80000000
      (dev_tick_of at_500 1000)
      0
      closed_bank
      (ends_at (dev_tick_of at_500 1000) 0 closed_bank 4 false 0x80000000)
      x.0
      x.1)
unfolding init
access_latency_example =
    access_latency at_500 0x80000000 4 false 1000 1 0 closed_bank at_500-IsValid Finds-closed early
      small ends_small (omega arith)

refresh_count_after_reset_example :
    Returns (check_refresh (reset_stats at_500) 100000) (λ s'. s'.refresh_count ≡ 128)
refresh_count_after_reset_example =
    refresh_count_after_reset at_500 100000 (omega arith) (omega arith)
