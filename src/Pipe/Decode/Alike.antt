-- ===== src/Pipe/Decode/Alike.antt =====
-- Decode neither ends nor begins an instruction.
use ysyx_np_sim.Prelude.{ℕ, ◌≡◌, some, arith, inl, inr, >>=-eq-some, if-eq-some}
use ysyx_np_sim.Trace.{TraceInst}
use ysyx_np_sim.Pipe.Core.{Core}
use ysyx_np_sim.Pipe.Core.Alike.{Alike, schedule-Alike}
use ysyx_np_sim.Pipe.Decode.{blocked, drop, pass, check_waw, check_raw, decode_inst, do_decode}

module _ {P C : Type 0} where
  blocked-Alike : (c d : Core P C) (when now : ℕ) → blocked c when now ≡ some d → Alike c d
  unfolding blocked
  blocked-Alike c d when now h = grind (arith, schedule-Alike)

  drop-Alike : (c d : Core P C) (now : ℕ) → drop c now ≡ some d → Alike c d
  unfolding drop
  drop-Alike c d now h = grind (arith, schedule-Alike)

  pass-Alike :
      (c d : Core P C) (inst : TraceInst) (ready now : ℕ)
      → pass c inst ready now ≡ some d
      → Alike c d
  unfolding pass
  pass-Alike c d inst ready now h = grind (arith, schedule-Alike)

  check_waw-Alike :
      (c d : Core P C) (inst : TraceInst) (ready now : ℕ)
      → check_waw c inst ready now ≡ some d
      → Alike c d
  unfolding check_waw
  check_waw-Alike c d inst ready now h = grind (arith, blocked-Alike, pass-Alike)

  check_raw-Alike :
      (c d : Core P C) (inst : TraceInst) (now : ℕ) → check_raw c inst now ≡ some d → Alike c d
  unfolding check_raw
  check_raw-Alike c d inst now h = grind (arith, blocked-Alike, check_waw-Alike)

  decode_inst-Alike :
      (c d : Core P C) (inst : TraceInst) (now : ℕ) → decode_inst c inst now ≡ some d → Alike c d
  unfolding decode_inst
  decode_inst-Alike c d inst now h = grind (arith, blocked-Alike, check_raw-Alike)

  pub do_decode-Alike : (c d : Core P C) (now : ℕ) → do_decode c now ≡ some d → Alike c d
  unfolding do_decode
  do_decode-Alike c d now h =
      let (t, e, k) = >>=-eq-some c.sim_pipe.in_fetch _ h in
      elim (if-eq-some t.is_wrong_path (drop c now) (decode_inst c t.trace_inst now) k) [
        | inl dropped ↦ drop-Alike c d now dropped
        | inr decoded ↦ decode_inst-Alike c d t.trace_inst now decoded
      ]
