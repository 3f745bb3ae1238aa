-- ===== src/Pipe/Execute/Drain.antt =====
-- Execute leaves alone whether the core drains.
use ysyx_np_sim.Prelude.{ℕ, ◌≡◌, some, arith}
use ysyx_np_sim.Branch.Interface.{BranchPred}
use ysyx_np_sim.Pipe.Types.{Transaction}
use ysyx_np_sim.Pipe.Core.{Core}
use ysyx_np_sim.Pipe.Core.Alike.{schedule-Alike, async_schedule-Alike, update_reg_time-Alike}
use ysyx_np_sim.Pipe.Execute.{
  flush_front, resolve, clear_entry, flush_non_branch, flush_false_btb_hit, execute_inst,
  do_execute, start_mul, do_mul_ext, start_div, do_div_ext,
}

module _ {P C : Type 0} where
  flush_front-is_draining :
      (c d : Core P C) (now : ℕ) → flush_front c now ≡ some d → d.is_draining ≡ c.is_draining
  unfolding flush_front
  flush_front-is_draining c d now h = grind arith

module _ {P C : Type 0} (api : BranchPred P) where
  resolve-is_draining :
      (c d : Core P C) (t : Transaction) (now : ℕ)
      → resolve api c t now ≡ some d
      → d.is_draining ≡ c.is_draining
  unfolding resolve
  resolve-is_draining c d t now h = grind (arith, flush_front-is_draining)

  clear_entry-is_draining :
      (c d : Core P C) (pc : ℕ) → clear_entry api c pc ≡ some d → d.is_draining ≡ c.is_draining
  unfolding clear_entry
  clear_entry-is_draining c d pc h = grind arith

  flush_non_branch-is_draining :
      (c d : Core P C) (t : Transaction) (now : ℕ)
      → flush_non_branch api c t now ≡ some d
      → d.is_draining ≡ c.is_draining
  unfolding flush_non_branch
  flush_non_branch-is_draining c d t now h =
      grind (arith, flush_front-is_draining, clear_entry-is_draining)

  flush_false_btb_hit-is_draining :
      (c d : Core P C) (t : Transaction) (now : ℕ)
      → flush_false_btb_hit api c t now ≡ some d
      → d.is_draining ≡ c.is_draining
  unfolding flush_false_btb_hit
  flush_false_btb_hit-is_draining c d t now h = grind (arith, flush_non_branch-is_draining)

  execute_inst-is_draining :
      (c d : Core P C) (t : Transaction) (now : ℕ)
      → execute_inst api c t now ≡ some d
      → d.is_draining ≡ c.is_draining
  unfolding execute_inst
  execute_inst-is_draining c d t now h = grind (
    arith, resolve-is_draining, flush_false_btb_hit-is_draining, update_reg_time-Alike,
    schedule-Alike,
  )

  pub do_execute-is_draining :
      (c d : Core P C) (now : ℕ) → do_execute api c now ≡ some d → d.is_draining ≡ c.is_draining
  unfolding do_execute
  do_execute-is_draining c d now h = grind (arith, execute_inst-is_draining)

  start_mul-is_draining :
      (c d : Core P C) (t : Transaction) (now : ℕ)
      → start_mul api c t now ≡ some d
      → d.is_draining ≡ c.is_draining
  unfolding start_mul
  start_mul-is_draining c d t now h = grind (
    arith, flush_false_btb_hit-is_draining, update_reg_time-Alike, schedule-Alike,
    async_schedule-Alike,
  )

  pub do_mul_ext-is_draining :
      (c d : Core P C) (now : ℕ) → do_mul_ext api c now ≡ some d → d.is_draining ≡ c.is_draining
  unfolding do_mul_ext
  do_mul_ext-is_draining c d now h = grind (arith, start_mul-is_draining)

  start_div-is_draining :
      (c d : Core P C) (t : Transaction) (now : ℕ)
      → start_div api c t now ≡ some d
      → d.is_draining ≡ c.is_draining
  unfolding start_div
  start_div-is_draining c d t now h = grind (
    arith, flush_false_btb_hit-is_draining, update_reg_time-Alike, schedule-Alike,
    async_schedule-Alike,
  )

  pub do_div_ext-is_draining :
      (c d : Core P C) (now : ℕ) → do_div_ext api c now ≡ some d → d.is_draining ≡ c.is_draining
  unfolding do_div_ext
  do_div_ext-is_draining c d now h = grind (arith, start_div-is_draining)
