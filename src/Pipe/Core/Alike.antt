-- ===== src/Pipe/Core/Alike.antt =====
-- Whether the core drains, and how many instructions are in it, under the schedule and the register times.
use ysyx_np_sim.Prelude.{ℕ, ◌≡◌, Option, none, some, arith, ◌∙◌}
use ysyx_np_sim.Trace.{TraceInst}
use ysyx_np_sim.Pipe.Types.{Transaction, PipeStage}
use ysyx_np_sim.Pipe.Core.{
  Core, schedule, async_schedule, retry_decode, wake_decode, update_reg_time,
}

-- The same number of instructions, and draining or not as before.
abbrev pub Alike : {P C : Type 0} → Core P C → Core P C → Type 0
Alike c d = (d.is_draining ≡ c.is_draining) × (d.ongoing_insts ≡ c.ongoing_insts)

module _ {P C : Type 0} where
  pub Alike-trans : (c d e : Core P C) → Alike c d → Alike d e → Alike c e
  Alike-trans c d e p q = (q.0 ∙ p.0, q.1 ∙ p.1)

  pub schedule-Alike :
      (c d : Core P C) (stage : PipeStage) (when now : ℕ)
      → schedule c stage when now ≡ some d
      → Alike c d
  unfolding schedule
  schedule-Alike c d stage when now h = grind arith

  pub async_schedule-Alike :
      (c d : Core P C) (stage : PipeStage) (when now : ℕ)
      → async_schedule c stage when now ≡ some d
      → Alike c d
  unfolding async_schedule
  async_schedule-Alike c d stage when now h = grind (arith, schedule-Alike)

  retry_decode-Alike :
      (c d : Core P C) (inst : TraceInst) (now : ℕ) → retry_decode c inst now ≡ some d → Alike c d
  unfolding retry_decode
  retry_decode-Alike c d inst now h = grind (arith, schedule-Alike)

  wake_decode-Alike :
      (c d : Core P C) (slot : Option Transaction) (now : ℕ)
      → wake_decode c slot now ≡ some d
      → Alike c d
  unfolding wake_decode
  wake_decode-Alike c d none now h = grind (arith, retry_decode-Alike)
  wake_decode-Alike c d (some t) now h = grind (arith, retry_decode-Alike)

  pub update_reg_time-Alike :
      (c d : Core P C) (rd when now : ℕ) → update_reg_time c rd when now ≡ some d → Alike c d
  unfolding update_reg_time
  update_reg_time-Alike c d rd when now h = grind (arith, wake_decode-Alike)
