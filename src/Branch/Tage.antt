-- ===== src/Branch/Tage.antt =====
-- branchSim/Tage.hh and Tage.cc: `TagePredictor`. `none` is a failed assertion, an access out of range
-- or a loop that does not end. A counter of -4 to 3 is kept with 4 added, so that it says taken from
-- 4 on; a component number of -1 is `none`.
pub mod Fold
pub mod Predict
pub mod Update
pub mod Bounds
pub mod Valid
pub mod Recover
mod Tests
use ysyx_np_sim.Prelude.{
  ℕ, ◌+◌, ◌*◌, ◌^◌, ◌-◌, min, max, Bool, false, Option, none, some, List, [], ◌∷◌, map,
  if◌then◌else◌, leb, ltb, ones, length, replicate, bit_and, bit_xor, shr, ◌>>=◌, ◌>>◌, assert, u16,
  u64, bit, bit_or,
}

-- `TageEntry`
pub record Entry : Type 0 where
  pub ctr : ℕ
  pub u : ℕ
  pub tag : ℕ
  pub valid : Bool

abbrev pub empty_entry : Entry
empty_entry = record { ctr = 4; u = 0; tag = 0; valid = false }

-- One tagged component: its elements of `hist_len_`, `comp_idx_bits_`, `comp_mask_`, `comp_tables_`.
pub record Comp : Type 0 where
  pub hist_len : ℕ
  pub idx_bits : ℕ
  pub mask : ℕ
  pub table : List Entry

-- A component's elements of `fidx`, `ftag` and `comp_hit`, with the counters of its entry.
pub record Looked : Type 0 where
  pub fidx : ℕ
  pub ftag : ℕ
  pub hit : Bool
  pub ctr : ℕ
  pub u : ℕ

-- A component that matched, with its number: `provider`, `provider_idx` and what was read there.
pub record Match : Type 0 where
  pub comp : ℕ
  pub idx : ℕ
  pub ctr : ℕ
  pub u : ℕ

-- `TageSnap`; the fields of the alternative that nothing reads are left out.
pub record Snap : Type 0 where
  pub valid : Bool
  pub bimodal_taken : Bool
  pub tage_taken : Bool
  pub btb_hit_at_pred : Bool
  pub base_cnt : ℕ
  pub provider : Option Match
  pub alt_provider : Option Match
  pub alt_taken : Bool
  pub ghr_snap : ℕ
  pub looked : List Looked

abbrev pub empty_snap : Snap
empty_snap = record {
  valid = false;
  bimodal_taken = false;
  tage_taken = false;
  btb_hit_at_pred = false;
  base_cnt = 0;
  provider = none;
  alt_provider = none;
  alt_taken = false;
  ghr_snap = 0;
  looked = [];
}

pub record TageStats : Type 0 where
  pub bimodal_correct : ℕ
  pub bimodal_mispred : ℕ
  pub tage_correct : ℕ
  pub tage_mispred : ℕ
  pub tage_overrides : ℕ
  pub tage_override_helpful : ℕ
  pub tage_override_harmful : ℕ
  pub base_used : ℕ
  pub base_correct : ℕ
  pub base_mispred : ℕ
  pub comp_used : List ℕ
  pub comp_correct : List ℕ
  pub comp_mispred : List ℕ
  pub allocations : ℕ
  pub alloc_failures : ℕ
  pub alloc_tried : ℕ
  pub update_snap_invalid : ℕ
  pub snap_ring_overflow : ℕ

pub record Tage : Type 0 where
  pub accesses : ℕ
  pub base_table : List ℕ
  pub base_mask : ℕ
  pub base_idx_bits : ℕ
  pub comps : List Comp
  pub ghr : ℕ
  pub ghr_mask : ℕ
  pub snap_ring : List Snap
  pub snap_wr_idx : ℕ
  pub u_reset_ctr : ℕ
  pub tage_stats : TageStats

-- `MAX_COMP`, `TAG_BITS`, `U_MAX`, `U_RESET_PERIOD` and `SNAP_RING`
abbrev pub max_comp : ℕ
max_comp = 8

abbrev pub tag_bits : ℕ
tag_bits = 8

abbrev pub u_max : ℕ
u_max = 3

abbrev pub u_reset_period : ℕ
u_reset_period = 2 ^ 18

abbrev pub snap_ring_len : ℕ
snap_ring_len = 512

abbrev pub init_stats : TageStats
init_stats = record {
  bimodal_correct = 0;
  bimodal_mispred = 0;
  tage_correct = 0;
  tage_mispred = 0;
  tage_overrides = 0;
  tage_override_helpful = 0;
  tage_override_harmful = 0;
  base_used = 0;
  base_correct = 0;
  base_mispred = 0;
  comp_used = replicate max_comp 0;
  comp_correct = replicate max_comp 0;
  comp_mispred = replicate max_comp 0;
  allocations = 0;
  alloc_failures = 0;
  alloc_tried = 0;
  update_snap_invalid = 0;
  snap_ring_overflow = 0;
}

-- The first `n` lengths.
pub first : ℕ → List ℕ → List ℕ
first n [] = []
first n (x ∷ xs) = let rest = first (n - 1) xs in if ltb 0 n then x ∷ rest else []

-- A component of `2 ^ comp_pow2` entries.
abbrev pub init_comp : ℕ → ℕ → Comp
init_comp comp_pow2 len = record {
  hist_len = max len 1;
  idx_bits = comp_pow2;
  mask = ones comp_pow2;
  table = replicate (2 ^ comp_pow2) empty_entry;
}

-- The length of the last component's history.
pub last_len : List Comp → ℕ
last_len [] = 0
last_len (c ∷ []) = c.hist_len
last_len (c ∷ d ∷ cs) = last_len (d ∷ cs)

-- The lengths are those that are not negative; a negative one counts as 1, as 0 does.
-- Models the constructor for exponents below 32, from which on `1u << n` is undefined;
-- Options/Build has the fault.
unfoldable pub init : ℕ → ℕ → List ℕ → Option Tage
unfolding first last_len
init base_pow2 comp_pow2 hist_lens = do
  let comps = map (init_comp comp_pow2) (first max_comp hist_lens)
  let max_hist = last_len comps
  assert (leb 1 (length comps))
  assert (leb 1 comp_pow2)
  some (record {
    accesses = 0;
    base_table = replicate (2 ^ base_pow2) 1;
    base_mask = ones base_pow2;
    base_idx_bits = base_pow2;
    comps = comps;
    ghr = 0;
    ghr_mask = if ltb max_hist 64 then ones max_hist else ones 64;
    snap_ring = replicate snap_ring_len empty_snap;
    snap_wr_idx = 0;
    u_reset_ctr = 0;
    tage_stats = init_stats;
  })

-- `((ghr << 1) | taken) & ghr_mask_`
abbrev pub shift : ℕ → Bool → ℕ → ℕ
shift ghr taken ghr_mask = bit_and (bit_or (u64 (ghr * 2)) (bit taken)) ghr_mask

-- The PC folded on itself.
unfoldable pub base_index : Tage → ℕ → ℕ
base_index t pc =
    let lo = bit_and (shr pc 2) t.base_mask in
    let hi = bit_and (shr pc (2 + t.base_idx_bits)) t.base_mask in bit_xor lo hi
