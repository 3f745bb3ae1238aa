-- ===== src/Branch/Tournament.antt =====
-- branchSim/Bimodal.hh and Bimodal.cc: `TournamentPredictor`. Its tables are indexed by `[]`;
-- `none` is an access out of range.
pub mod Laws
mod Tests
use ysyx_np_sim.Prelude.{
  ℕ, ◌^◌, Bool, false, not, Option, some, List, ◌>>=◌, if◌then◌else◌, bit_and, bit_xor, ones, shr,
  incr, beq, get_elem?, set_at, replicate,
}
use ysyx_np_sim.Branch.Types.{PredResult}
use ysyx_np_sim.Branch.Counter.{count, count_up, count_down, taken_of}
use ysyx_np_sim.Branch.History.{shift}

pub record Tournament : Type 0 where
  pub accesses : ℕ
  pub history_len : ℕ
  pub mask : ℕ
  pub hist_mask : ℕ
  pub global_history : ℕ
  pub local_table : List ℕ
  pub global_table : List ℕ
  pub selector_table : List ℕ

-- Models the constructor for a table exponent and a history length below 32, from which on
-- `1u << n` is undefined; Options/Build has the fault.
unfoldable pub init : ℕ → ℕ → Tournament
init table_pow2 history_len = record {
  accesses = 0;
  history_len = history_len;
  mask = ones table_pow2;
  hist_mask = ones history_len;
  global_history = 0;
  local_table = replicate (2 ^ table_pow2) 1;
  global_table = replicate (2 ^ table_pow2) 1;
  selector_table = replicate (2 ^ table_pow2) 1;
}

pub local_index : Tournament → ℕ → ℕ
local_index t pc = bit_and (shr pc 2) t.mask

pub global_index : Tournament → ℕ → ℕ → ℕ
global_index t pc ghr = bit_and (bit_xor (shr pc 2) ghr) t.mask

pub predict : Tournament → ℕ → Option (PredResult × Tournament)
predict t pc = do
  local ← get_elem? t.local_table (local_index t pc)
  global ← get_elem? t.global_table (global_index t pc t.global_history)
  selector ← get_elem? t.selector_table (local_index t pc)
  let pred = if taken_of selector then taken_of global else taken_of local
  some (
    record {
      taken = pred;
      bht_cnt = if taken_of selector then global else local;
      ghr_snap = t.global_history;
      tage_overrode_bimodal = false;
    },
    record t {
      accesses = incr t.accesses;
      global_history = shift t.global_history pred t.hist_mask;
    },
  )

-- The selector moves only where the two predictors disagree, towards the one that was right.
pub choose : Bool → Bool → ℕ → List ℕ → Option (List ℕ)
choose local_correct global_correct li selectors =
    if not (beq local_correct global_correct)
    then (do
      sel ← get_elem? selectors li
      set_at selectors li (if global_correct then count_up sel else count_down sel))
    else some selectors

pub update : Tournament → ℕ → Bool → ℕ → Option Tournament
update t pc taken old_ghr = do
  let li = local_index t pc
  let gi = global_index t pc old_ghr
  local ← get_elem? t.local_table li
  global ← get_elem? t.global_table gi
  selectors ← choose (beq (taken_of local) taken) (beq (taken_of global) taken) li t.selector_table
  locals ← set_at t.local_table li (count taken local)
  globals ← set_at t.global_table gi (count taken global)
  some (record t { local_table = locals; global_table = globals; selector_table = selectors })

pub on_mispred : Tournament → Bool → ℕ → Tournament
on_mispred t actual_taken old_ghr = record t {
  global_history = shift old_ghr actual_taken t.hist_mask;
}
