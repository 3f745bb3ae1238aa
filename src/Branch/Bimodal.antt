-- ===== src/Branch/Bimodal.antt =====
-- branchSim/Bimodal.hh and Bimodal.cc: `BimodalPredictor`. `none` is the exception of `.at`.
pub mod Laws
pub mod Tests
use ysyx_np_sim.Prelude.{
  ℕ, ◌+◌, ◌^◌, Bool, false, Option, some, List, ◌>>=◌, bit_and, bit_xor, ones, shr, incr, get_elem?,
  set_at, replicate,
}
use ysyx_np_sim.Branch.Types.{PredResult}
use ysyx_np_sim.Branch.Counter.{next_cnt, taken_of}

pub record Bimodal : Type 0 where
  pub accesses : ℕ
  pub idx_bits : ℕ
  pub mask : ℕ
  pub table : List ℕ

-- Models the constructor for exponents below 32, from which on `1u << n` is undefined;
-- Options/Build has the fault.
unfoldable pub init : ℕ → ℕ → Bimodal
init table_pow2 init_val = record {
  accesses = 0;
  idx_bits = table_pow2;
  mask = ones table_pow2;
  table = replicate (2 ^ table_pow2) init_val;
}

-- The PC folded on itself.
pub index : Bimodal → ℕ → ℕ
index b pc =
    let lo = bit_and (shr pc 2) b.mask in
    let hi = bit_and (shr pc (2 + b.idx_bits)) b.mask in bit_xor lo hi

pub predict : Bimodal → ℕ → Option (PredResult × Bimodal)
predict b pc = do
  cnt ← get_elem? b.table (index b pc)
  some (
    record { taken = taken_of cnt; bht_cnt = cnt; ghr_snap = 0; tage_overrode_bimodal = false },
    record b { accesses = incr b.accesses },
  )

pub update : Bimodal → ℕ → Bool → Bool → ℕ → Option Bimodal
update b pc taken btb_hit old_cnt = do
  table ← set_at b.table (index b pc) (next_cnt taken btb_hit old_cnt)
  some (record b { table = table })
