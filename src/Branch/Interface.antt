-- ===== src/Branch/Interface.antt =====
-- branchSim/BranchPred.hh: the virtual class `BranchPred`, as a record of what its subclasses define,
-- and the subclasses that keep no history of branches. The counter `stats.accesses` is the state of
-- the latter. A predictor's `on_resolved` changes nothing but the statistics of TAGE.
use ysyx_np_sim.Prelude.{ℕ, Bool, true, false, Option, some, ltb, incr}
use ysyx_np_sim.Branch.Types.{PredResult, BranchResult}
use ysyx_np_sim.Branch.Bimodal.{Bimodal}
use ysyx_np_sim.Branch.Bimodal
use ysyx_np_sim.Branch.GShare.{GShare}
use ysyx_np_sim.Branch.GShare
use ysyx_np_sim.Branch.Tournament.{Tournament}
use ysyx_np_sim.Branch.Tournament
use ysyx_np_sim.Branch.Tage.{Tage}
use ysyx_np_sim.Branch.Tage.Predict
use ysyx_np_sim.Branch.Tage.Update

-- `predict(pc, btb_target)`, `update(pc, taken, btb_hit, old_cnt, old_ghr)`,
-- `on_mispred(actual_taken, old_cnt, old_ghr)`, `on_resolved(taken, pred)`
pub record BranchPred (P : Type 0) : Type 0 where
  pub predict : P → ℕ → ℕ → Option (PredResult × P)
  pub update : P → ℕ → Bool → Bool → ℕ → ℕ → Option P
  pub on_mispred : P → Bool → ℕ → ℕ → P
  pub on_resolved : P → Bool → BranchResult → P
  pub reset_stats : P → P
  -- `BranchUnit::is_no_bpu` of a unit with this predictor.
  pub is_no_bpu : Bool

-- A predictor without state, which answers at once.
stateless : (ℕ → ℕ → Bool) → ℕ → Bool → BranchPred ℕ
stateless taken cnt is_none = record {
  predict = λ n pc target. some (
    record { taken = taken pc target; bht_cnt = cnt; ghr_snap = 0; tage_overrode_bimodal = false },
    incr n,
  );
  update = λ n pc taken btb_hit old_cnt old_ghr. some n;
  on_mispred = λ n actual_taken old_cnt old_ghr. n;
  on_resolved = λ n taken pred. n;
  reset_stats = λ n. 0;
  is_no_bpu = is_none;
}

pub always_taken : BranchPred ℕ
unfolding stateless
always_taken = stateless (λ pc target. true) 3 false

pub no_bpu : BranchPred ℕ
unfolding stateless
no_bpu = stateless (λ pc target. false) 0 true

-- Backward is taken.
pub btfnt : BranchPred ℕ
unfolding stateless
btfnt = stateless (λ pc target. ltb target pc) 0 false

unfoldable pub bimodal : BranchPred Bimodal
bimodal = record {
  predict = λ b pc target. Bimodal.predict b pc;
  update = λ b pc taken btb_hit old_cnt old_ghr. Bimodal.update b pc taken btb_hit old_cnt;
  on_mispred = λ b actual_taken old_cnt old_ghr. b;
  on_resolved = λ b taken pred. b;
  reset_stats = λ b. record b { accesses = 0 };
  is_no_bpu = false;
}

unfoldable pub gshare : BranchPred GShare
gshare = record {
  predict = λ g pc target. GShare.predict g pc;
  update = λ g pc taken btb_hit old_cnt old_ghr. GShare.update g pc taken btb_hit old_cnt old_ghr;
  on_mispred = λ g actual_taken old_cnt old_ghr. GShare.on_mispred g actual_taken old_ghr;
  on_resolved = λ g taken pred. g;
  reset_stats = λ g. record g { accesses = 0 };
  is_no_bpu = false;
}

unfoldable pub tournament : BranchPred Tournament
tournament = record {
  predict = λ t pc target. Tournament.predict t pc;
  update = λ t pc taken btb_hit old_cnt old_ghr. Tournament.update t pc taken old_ghr;
  on_mispred = λ t actual_taken old_cnt old_ghr. Tournament.on_mispred t actual_taken old_ghr;
  on_resolved = λ t taken pred. t;
  reset_stats = λ t. record t { accesses = 0 };
  is_no_bpu = false;
}

-- TAGE counts in `on_resolved`, and finds its snapshot by `old_ghr`.
unfoldable pub tage : BranchPred Tage
tage = record {
  predict = λ t pc target. Predict.predict t pc target;
  update = λ t pc taken btb_hit old_cnt old_ghr. Update.update t pc taken btb_hit old_cnt old_ghr;
  on_mispred = λ t actual_taken old_cnt old_ghr. Update.on_mispred t actual_taken old_cnt old_ghr;
  on_resolved = λ t taken pred. Update.on_resolved t taken pred;
  reset_stats = λ t. record t { accesses = 0 };
  is_no_bpu = false;
}
