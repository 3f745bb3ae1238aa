-- ===== src/Branch/GShare/Tests.antt =====
-- Runs of `GSharePredictor`.
use ysyx_np_sim.Prelude.{refl, true, false, [], ◌∷◌, Returns, arith}
use ysyx_np_sim.Branch.History.{Holds}
use ysyx_np_sim.Branch.GShare.{GShare, init, predict, on_mispred}
use ysyx_np_sim.Branch.GShare.Laws.{
  IsValid, init-IsValid, run, predicts, updates, on_mispred_recovers,
}

abbrev small : GShare
small = init 3 4 2

small-IsValid : IsValid 3 small
small-IsValid = init-IsValid 3 4 2 (omega arith) (omega arith)

on_mispred_recovers_example : Returns (predict small 20) (λ x.
    Returns
      (run x.1 (predicts 24 ∷ updates 8 true true 2 0 (omega arith) ∷ []))
      (λ g'. Holds 4 (on_mispred g' false x.0.ghr_snap).global_history (false ∷ [])))
unfolding init
on_mispred_recovers_example =
    on_mispred_recovers 3 small 20 [] (predicts 24 ∷ updates 8 true true 2 0 (omega arith) ∷ [])
      false small-IsValid refl
