-- ===== src/Branch/Bimodal/Tests.antt =====
-- Runs of `BimodalPredictor`.
use ysyx_np_sim.Prelude.{false, some, ◌≡◌, refl, true, arith}
use ysyx_np_sim.Branch.Bimodal.{Bimodal, init, index, predict}
use ysyx_np_sim.Branch.Bimodal.Laws.{IsValid, init-IsValid}

abbrev small : Bimodal
small = init 2 1

small-IsValid : IsValid small
small-IsValid = init-IsValid 2 1 (omega arith)

-- 0x8000_0014 has the index 1 ^ 1.
index_folds : index small 0x80000014 ≡ 0
unfolding index init
index_folds = refl

-- The first prediction of a predictor of two counters that lean to taken.
abbrev pub leaning : Bimodal
leaning = init 1 2

pub leaning-predict :
    predict leaning 0x48
    ≡ some (
      record { taken = true; bht_cnt = 2; ghr_snap = 0; tage_overrode_bimodal = false },
      record leaning { accesses = 1 },
    )
unfolding predict index init
leaning-predict = refl
