-- ===== src/Branch/Unit.antt =====
-- branchSim/BranchPred.hh and BranchPred.cc: `BranchUnit`, over any subclass of `BranchPred`. `none`
-- is the exception of an access out of range.
pub mod Judge
pub mod Conflict
mod Tests
use ysyx_np_sim.Prelude.{
  ℕ, ◌+◌, ◌-◌, Bool, true, false, not, ◌&&◌, ◌||◌, Option, none, some, ◌>>=◌, if◌then◌else◌, ltb,
  ◌==◌, bit_and, shr, u32, incr,
}
use ysyx_np_sim.Branch.Types.{PredResult, BranchResult, BpStats, no_result}
use ysyx_np_sim.Branch.Types
use ysyx_np_sim.Branch.Btb.{Btb, lookup, num_entries, has_rw_conflict, entry_type, set_entry_type}
use ysyx_np_sim.Branch.Btb
use ysyx_np_sim.Branch.Ras.{Ras, push, pop, top, valid}
use ysyx_np_sim.Branch.Ras
use ysyx_np_sim.Branch.Interface.{BranchPred}

pub record BranchUnit (P : Type 0) : Type 0 where
  pub stats : BpStats
  pub bpu : P
  pub btb : Btb
  pub ras : Option Ras
  pub btb_written_this_tick : Bool
  pub btb_written_idx : ℕ
  pub bypass_valid : Bool
  pub bypass_idx : ℕ

btb_or_none : Option Btb → Btb
btb_or_none none = Btb.init_no_btb
btb_or_none (some b) = b

unfoldable pub init : {P : Type 0} → P → Option Btb → ℕ → BranchUnit P
unfolding btb_or_none
init bpu btb ras_depth = record {
  stats = Types.reset_stats;
  bpu = bpu;
  btb = btb_or_none btb;
  ras = if ltb 0 ras_depth then some (Ras.init ras_depth) else none;
  btb_written_this_tick = false;
  btb_written_idx = 0;
  bypass_valid = false;
  bypass_idx = 0;
}

-- `(pc >> 2) & (btb_->num_entries() - 1)`
abbrev pub btb_index : Btb → ℕ → ℕ
btb_index b pc = bit_and (shr pc 2) (num_entries b - 1)

-- A read of another index than the one just written, on a single port.
abbrev pub conflicts : {P : Type 0} → BranchUnit P → ℕ → Bool
conflicts u pc = has_rw_conflict u.btb && u.bypass_valid && not (btb_index u.btb pc == u.bypass_idx)

-- The return stack overrides the direction and the target of a return.
pub with_ras : Option Ras → Btb → ℕ → Bool → ℕ → Option (Bool × ℕ)
with_ras none btb pc pred_taken btb_target = some (pred_taken, btb_target)
with_ras (some ras) btb pc pred_taken btb_target =
    let from_ras = top ras >>= λ target. some (true, target) in
    if not (btb_target == 0) && entry_type btb (btb_index btb pc) == 1 && valid ras
    then from_ras
    else some (pred_taken, btb_target)

-- `judge` on the statistics.
pub judge_stats : BpStats → Bool → ℕ → BranchResult → Bool × BpStats
judge_stats s real_taken real_target pred =
    let accurate = pred.pred_target == real_target in
    let missed = record s { misses = incr s.misses } in
    if real_taken
    then (if pred.will_redirect
        then (accurate, if accurate then s else record missed { bad_target = incr s.bad_target })
        else (
          false,
          if pred.pred_taken
              then record missed { no_target = incr s.no_target }
              else record missed { bad_pred = incr s.bad_pred },
        ))
    else if pred.will_redirect
    then (false, record missed { bad_pred = incr s.bad_pred })
    else (true, s)

pub judge : {P : Type 0} → BranchUnit P → Bool → ℕ → BranchResult → Bool × BranchUnit P
unfolding judge_stats
judge u real_taken real_target pred =
    let (accurate, stats) = judge_stats u.stats real_taken real_target pred in
    (accurate, record u { stats = stats })

pub clear_btb_entry : {P : Type 0} → BranchUnit P → ℕ → Option (BranchUnit P)
clear_btb_entry u pc = do
  btb ← Btb.clear_entry u.btb pc
  some (record u { btb = btb; btb_written_this_tick = true; btb_written_idx = btb_index btb pc })

pub begin_tick : {P : Type 0} → BranchUnit P → BranchUnit P
begin_tick u = record u {
  bypass_valid = u.btb_written_this_tick;
  bypass_idx = u.btb_written_idx;
  btb_written_this_tick = false;
}

pub has_btb_hit : {P : Type 0} → BranchUnit P → ℕ → Option Bool
has_btb_hit u pc = do target ← lookup u.btb pc; some (not (target == 0))

-- The BTB takes a taken branch, and marks a return.
write_btb : {P : Type 0} → BranchUnit P → ℕ → ℕ → Bool → Option (BranchUnit P)
write_btb u pc target is_ret = do
  btb ← Btb.update u.btb pc target
  let idx = btb_index btb pc
  some (record u {
    btb = set_entry_type btb idx (if is_ret then 1 else 0);
    btb_written_this_tick = true;
    btb_written_idx = idx;
  })

update_ras : Option Ras → ℕ → Bool → Bool → Option (Option Ras)
update_ras none pc is_call is_ret = some none
update_ras (some ras) pc is_call is_ret = do
  let pushed = push ras (u32 (pc + 4))
  ras' ← if is_call then pushed else some ras
  some (some (if is_ret then pop ras' else ras'))

module _ {P : Type 0} (api : BranchPred P) where
  pub predict : BranchUnit P → ℕ → Option (BranchResult × BranchUnit P)
  unfolding with_ras
  predict u pc = do
    found ← lookup u.btb pc
    let btb_target = if conflicts u pc then 0 else found
    (res, bpu) ← api.predict u.bpu pc btb_target
    (pred_taken, target) ← with_ras u.ras u.btb pc res.taken btb_target
    some (
      record {
        pred_taken = pred_taken;
        pred_target = target;
        will_redirect = pred_taken && not (target == 0);
        bht_cnt = res.bht_cnt;
        ghr_snap = res.ghr_snap;
        tage_overrode_bimodal = res.tage_overrode_bimodal;
      },
      record u { stats = record u.stats { accesses = incr u.stats.accesses }; bpu = bpu },
    )

  pub predict_at_fetch : BranchUnit P → ℕ → Bool → Option (BranchResult × BranchUnit P)
  unfolding predict
  predict_at_fetch u pc is_branch =
      let counted = record u {
        stats = record u.stats { br_accesses = incr u.stats.br_accesses };
      } in
      let predicted = predict counted pc in if is_branch then predicted else some (no_result, u)

  pub update :
      BranchUnit P
      → (pc : ℕ) → (taken : Bool) → (target : ℕ) → (is_call is_ret btb_hit : Bool) → BranchResult
      → (mispred : Bool) → Option (BranchUnit P)
  unfolding write_btb update_ras
  update u pc taken target is_call is_ret btb_hit pred mispred = do
    let bpu1 = api.on_resolved u.bpu taken pred
    let trained = api.update bpu1 pc taken btb_hit pred.bht_cnt pred.ghr_snap
    bpu2 ← if btb_hit || taken then trained else some bpu1
    let bpu3 = if mispred then api.on_mispred bpu2 taken pred.bht_cnt pred.ghr_snap else bpu2
    let u1 = record u { bpu = bpu3 }
    let written = write_btb u1 pc target is_ret
    u2 ← if taken then written else some u1
    ras ← update_ras u2.ras pc is_call is_ret
    some (record u2 { ras = ras })

  pub reset_stats : BranchUnit P → BranchUnit P
  reset_stats u = record u { stats = Types.reset_stats; bpu = api.reset_stats u.bpu }
