-- ===== src/Branch/GShare.antt =====
-- branchSim/Bimodal.hh and Bimodal.cc: `GSharePredictor`. `none` is the exception of `.at`.
pub mod Laws
mod Tests
use ysyx_np_sim.Prelude.{
  ℕ, ◌^◌, Bool, false, Option, some, List, ◌>>=◌, bit_and, bit_xor, ones, shr, incr, get_elem?,
  set_at, replicate,
}
use ysyx_np_sim.Branch.Types.{PredResult}
use ysyx_np_sim.Branch.Counter.{next_cnt, taken_of}
use ysyx_np_sim.Branch.History.{shift}

pub record GShare : Type 0 where
  pub accesses : ℕ
  pub history_len : ℕ
  pub mask : ℕ
  pub hist_mask : ℕ
  pub global_history : ℕ
  pub table : List ℕ

-- Models the constructor for a table exponent and a history length below 32, from which on
-- `1u << n` is undefined; Options/Build has the fault.
unfoldable pub init : ℕ → ℕ → ℕ → GShare
init table_pow2 history_len init_val = record {
  accesses = 0;
  history_len = history_len;
  mask = ones table_pow2;
  hist_mask = ones history_len;
  global_history = 0;
  table = replicate (2 ^ table_pow2) init_val;
}

pub index : GShare → ℕ → ℕ → ℕ
index g pc ghr = bit_and (bit_xor (shr pc 2) ghr) g.mask

-- The history takes in the predicted direction at once.
pub predict : GShare → ℕ → Option (PredResult × GShare)
predict g pc = do
  cnt ← get_elem? g.table (index g pc g.global_history)
  some (
    record {
      taken = taken_of cnt;
      bht_cnt = cnt;
      ghr_snap = g.global_history;
      tage_overrode_bimodal = false;
    },
    record g {
      accesses = incr g.accesses;
      global_history = shift g.global_history (taken_of cnt) g.hist_mask;
    },
  )

-- The entry is found again by the history at prediction time.
pub update : GShare → ℕ → Bool → Bool → ℕ → ℕ → Option GShare
update g pc taken btb_hit old_cnt old_ghr = do
  table ← set_at g.table (index g pc old_ghr) (next_cnt taken btb_hit old_cnt)
  some (record g { table = table })

pub on_mispred : GShare → Bool → ℕ → GShare
on_mispred g actual_taken old_ghr = record g {
  global_history = shift old_ghr actual_taken g.hist_mask;
}
