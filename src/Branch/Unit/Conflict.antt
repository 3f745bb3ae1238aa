-- ===== src/Branch/Unit/Conflict.antt =====
-- The single port of a BTB in SRAM, between two ticks.
use ysyx_np_sim.Prelude.{
  ℕ, ◌≡◌, arith, ◌≢◌, refl, Bool, true, false, not, ◌&&◌, ◌==◌, Option, none, some, Returns, incr,
}
use ysyx_np_sim.Branch.Types.{PredResult}
use ysyx_np_sim.Branch.Btb.{Btb, lookup, has_rw_conflict}
use ysyx_np_sim.Branch.Ras.{Ras}
use ysyx_np_sim.Branch.Interface.{BranchPred}
use ysyx_np_sim.Branch.Unit.{BranchUnit, btb_index, with_ras, begin_tick, predict}

different : (a b : ℕ) → a ≢ b → not (a == b) ≡ true
different a b h = ground arith

no_hit : (b : Bool) → (b && not (0 == 0)) ≡ false
no_hit true = refl
no_hit false = refl

with_ras-miss :
    (ras : Option Ras) (btb : Btb) (pc : ℕ) (taken : Bool)
    → with_ras ras btb pc taken 0 ≡ some (taken, 0)
unfolding with_ras
with_ras-miss none btb pc taken = refl
with_ras-miss (some ras) btb pc taken = refl

-- In the tick after a write to a BTB in SRAM, a prediction at another index than the written one
-- misses: no redirect, whatever the table, the direction predictor and the return stack say.
pub predict-conflict :
    {P : Type 0} (api : BranchPred P) (u : BranchUnit P) (pc found : ℕ) (res : PredResult) (bpu : P)
    → u.btb_written_this_tick ≡ true
    → has_rw_conflict u.btb ≡ true
    → btb_index u.btb pc ≢ u.btb_written_idx
    → lookup u.btb pc ≡ some found
    → api.predict u.bpu pc 0 ≡ some (res, bpu)
    → Returns (predict api (begin_tick u) pc) (λ r.
      (r.0.pred_taken ≡ res.taken)
      × (r.0.pred_target ≡ 0)
      × (r.0.will_redirect ≡ false)
      × (r.1.bpu ≡ bpu)
      × (r.1.stats.accesses ≡ incr u.stats.accesses))
unfolding predict begin_tick
predict-conflict api u pc found res bpu written port other e p =
    rw
      (
        e,
        port,
        written,
        different (btb_index u.btb pc) u.btb_written_idx other,
        p,
        with_ras-miss u.ras u.btb pc res.taken,
      )
      (refl, refl, no_hit res.taken, refl, refl)
