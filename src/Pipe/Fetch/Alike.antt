-- ===== src/Pipe/Fetch/Alike.antt =====
-- Fetching neither ends nor begins an instruction.
use ysyx_np_sim.Prelude.{ℕ, ◌≡◌, Option, none, some, arith, >>=-eq-some, incr, assert, not}
use ysyx_np_sim.Trace.{TraceInst}
use ysyx_np_sim.Branch.Interface.{BranchPred}
use ysyx_np_sim.Pipe.Types.{Transaction}
use ysyx_np_sim.Pipe.Core.{Core, Ports, present}
use ysyx_np_sim.Pipe.Core.Alike.{Alike, schedule-Alike}
use ysyx_np_sim.Pipe.Fetch.{
  hold_front, issue_front, try_front, do_fetch_1, early_redirect, request_wrong, wrong_fetch,
  fetch_inst, fetch_input, normal_fetch, request, do_fetch_0, feed_inst,
}

module _ {P C : Type 0} where
  hold_front-Alike :
      (c d : Core P C) (t : Transaction) (now : ℕ) → hold_front c t now ≡ some d → Alike c d
  unfolding hold_front
  hold_front-Alike c d t now h = grind (arith, schedule-Alike)

  issue_front-Alike : (c d : Core P C) (t : Transaction) → issue_front c t ≡ some d → Alike c d
  unfolding issue_front
  issue_front-Alike c d t h = grind arith

  try_front-Alike :
      (c d : Core P C) (t : Transaction) (now : ℕ) → try_front c t now ≡ some d → Alike c d
  unfolding try_front
  try_front-Alike c d t now h = grind (arith, schedule-Alike, hold_front-Alike, issue_front-Alike)

  pub do_fetch_1-Alike : (c d : Core P C) (now : ℕ) → do_fetch_1 c now ≡ some d → Alike c d
  unfolding do_fetch_1
  do_fetch_1-Alike c d now h = grind (arith, schedule-Alike, try_front-Alike)

module _ {P C : Type 0} (api : BranchPred P) (io : Ports C) where
  early_redirect-Alike :
      (c d : Core P C) (now : ℕ) → early_redirect api io c now ≡ some d → Alike c d
  unfolding early_redirect
  early_redirect-Alike c d now h = grind arith

  request_wrong-Alike : (c d : Core P C) (now : ℕ) → request_wrong api io c now ≡ some d → Alike c d
  unfolding request_wrong
  request_wrong-Alike c d now h = grind arith

  wrong_fetch-Alike : (c d : Core P C) (now : ℕ) → wrong_fetch api io c now ≡ some d → Alike c d
  unfolding wrong_fetch
  wrong_fetch-Alike c d now h = grind (arith, request_wrong-Alike)

  fetch_inst-Alike :
      (c d : Core P C) (t : Transaction) (now : ℕ) → fetch_inst api io c t now ≡ some d → Alike c d
  unfolding fetch_inst
  fetch_inst-Alike c d t now h = grind arith

  fetch_input-Alike :
      (c d : Core P C) (slot : Option Transaction) (now : ℕ)
      → fetch_input api io c slot now ≡ some d
      → Alike c d
  unfolding fetch_input
  fetch_input-Alike c d none now h = grind (arith, fetch_inst-Alike)
  fetch_input-Alike c d (some t) now h = grind (arith, fetch_inst-Alike)

  normal_fetch-Alike : (c d : Core P C) (now : ℕ) → normal_fetch api io c now ≡ some d → Alike c d
  unfolding normal_fetch
  normal_fetch-Alike c d now h = grind (arith, fetch_input-Alike)

  request-Alike : (c d : Core P C) (now : ℕ) → request api io c now ≡ some d → Alike c d
  unfolding request
  request-Alike c d now h =
      grind (arith, early_redirect-Alike, wrong_fetch-Alike, normal_fetch-Alike)

  pub do_fetch_0-Alike : (c d : Core P C) (now : ℕ) → do_fetch_0 api io c now ≡ some d → Alike c d
  unfolding do_fetch_0
  do_fetch_0-Alike c d now h = grind (arith, request-Alike)

  -- An instruction that is fed is one more in the core.
  pub feed_inst-counts :
      (c d : Core P C) (inst : TraceInst) (now : ℕ)
      → feed_inst api io c inst now ≡ some d
      → (d.is_draining ≡ c.is_draining) × (d.ongoing_insts ≡ incr c.ongoing_insts)
  unfolding feed_inst
  feed_inst-counts c d inst now h =
      let (_, _, k) = >>=-eq-some (assert (not (present c.input_buffer))) _ h in
      do_fetch_0-Alike _ d now k
