-- ===== src/Pipe/Respond/Alike.antt =====
-- The answers of the caches neither end nor begin an instruction.
use ysyx_np_sim.Prelude.{ℕ, ◌≡◌, Bool, Option, none, some, List, [], ◌∷◌, arith}
use ysyx_np_sim.Mem.Types.{CpuTrans, AckTrans}
use ysyx_np_sim.Pipe.Types.{Transaction}
use ysyx_np_sim.Pipe.Core.{Core}
use ysyx_np_sim.Pipe.Core.Alike.{Alike, async_schedule-Alike, update_reg_time-Alike}
use ysyx_np_sim.Pipe.Respond.{
  wake_entry, answer, handle_ifu_resp, check_raw, handle_lsu_resp, recv_mem_resp, retry_memory,
  ack_mem_avail, recv_all,
}

module _ {P C : Type 0} where
  wake_entry-Alike : (c d : Core P C) (now : ℕ) → wake_entry c now ≡ some d → Alike c d
  unfolding wake_entry
  wake_entry-Alike c d now h = grind (arith, async_schedule-Alike)

  answer-Alike :
      (c d : Core P C) (orphans : List Bool) (now : ℕ) → answer c orphans now ≡ some d → Alike c d
  unfolding answer
  answer-Alike c d [] now h = grind (arith, wake_entry-Alike)
  answer-Alike c d (orphan ∷ rest) now h = grind (arith, wake_entry-Alike)

  handle_ifu_resp-Alike : (c d : Core P C) (now : ℕ) → handle_ifu_resp c now ≡ some d → Alike c d
  unfolding handle_ifu_resp
  handle_ifu_resp-Alike c d now h = grind (arith, answer-Alike)

  check_raw-Alike :
      (c d : Core P C) (slot : Option Transaction) (now : ℕ)
      → check_raw c slot now ≡ some d
      → Alike c d
  unfolding check_raw
  check_raw-Alike c d none now h = grind arith
  check_raw-Alike c d (some t) now h = grind arith

  handle_lsu_resp-Alike : (c d : Core P C) (now : ℕ) → handle_lsu_resp c now ≡ some d → Alike c d
  unfolding handle_lsu_resp
  handle_lsu_resp-Alike c d now h =
      grind (arith, update_reg_time-Alike, check_raw-Alike, async_schedule-Alike)

  pub recv_mem_resp-Alike :
      (c d : Core P C) (resp : CpuTrans) (now : ℕ) → recv_mem_resp c resp now ≡ some d → Alike c d
  unfolding recv_mem_resp
  recv_mem_resp-Alike c d resp now h = grind (arith, handle_ifu_resp-Alike, handle_lsu_resp-Alike)

  retry_memory-Alike :
      (c d : Core P C) (slot : Option Transaction) (now : ℕ)
      → retry_memory c slot now ≡ some d
      → Alike c d
  unfolding retry_memory
  retry_memory-Alike c d none now h = grind (arith, async_schedule-Alike)
  retry_memory-Alike c d (some t) now h = grind (arith, async_schedule-Alike)

  pub ack_mem_avail-Alike :
      (c d : Core P C) (ack : AckTrans) (now : ℕ) → ack_mem_avail c ack now ≡ some d → Alike c d
  unfolding ack_mem_avail
  ack_mem_avail-Alike c d ack now h = grind (arith, async_schedule-Alike, retry_memory-Alike)

  pub recv_all-Alike :
      (c d : Core P C) (resps : List CpuTrans) (now : ℕ) → recv_all c resps now ≡ some d → Alike c d
  unfolding recv_all
  recv_all-Alike c d [] now h = ground arith
  recv_all-Alike c d (resp ∷ resps) now h =
      grind (arith, recv_mem_resp-Alike, λ (e : Core P C). recv_all-Alike e d resps now)
