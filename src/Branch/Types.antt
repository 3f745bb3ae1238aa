-- ===== src/Branch/Types.antt =====
-- branchSim/BranchPred.hh: the values that pass between the predictors, the BTB and the pipeline,
-- and the predictors' counters.
use ysyx_np_sim.Prelude.{ℕ, Bool, false}

-- `BPUPredResult`
pub record PredResult : Type 0 where
  pub taken : Bool
  pub bht_cnt : ℕ
  pub ghr_snap : ℕ
  pub tage_overrode_bimodal : Bool

-- `BranchResult`
pub record BranchResult : Type 0 where
  pub pred_taken : Bool
  pub pred_target : ℕ
  pub will_redirect : Bool
  pub bht_cnt : ℕ
  pub ghr_snap : ℕ
  pub tage_overrode_bimodal : Bool

-- `BranchResult{}`
abbrev pub no_result : BranchResult
no_result = record {
  pred_taken = false;
  pred_target = 0;
  will_redirect = false;
  bht_cnt = 1;
  ghr_snap = 0;
  tage_overrode_bimodal = false;
}

-- `BPStatsBase`; the counters are `size_t`.
pub record BpStats : Type 0 where
  pub accesses : ℕ
  pub misses : ℕ
  pub no_target : ℕ
  pub bad_target : ℕ
  pub bad_pred : ℕ
  pub nonbr_mispred : ℕ
  pub br_accesses : ℕ

abbrev pub reset_stats : BpStats
reset_stats = record {
  accesses = 0;
  misses = 0;
  no_target = 0;
  bad_target = 0;
  bad_pred = 0;
  nonbr_mispred = 0;
  br_accesses = 0;
}
