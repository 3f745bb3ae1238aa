-- ===== src/Branch/Tage/Tests.antt =====
-- The theorems on TAGE, at a predictor of two components with histories of 2 and 4 branches.
use ysyx_np_sim.Prelude.{
  ℕ, ◌≡◌, ◌<◌, ◌^◌, refl, true, arith, some, List, [], length, ◌∷◌, replicate, length-replicate,
  Returns, incr,
}
use ysyx_np_sim.Branch.Types.{BranchResult, no_result}
use ysyx_np_sim.Branch.Tage.{Tage, init_comp, init_stats, empty_snap, snap_ring_len, shift}
use ysyx_np_sim.Branch.Tage.Fold.{fold_ghr}
use ysyx_np_sim.Branch.Tage.Update.{update, on_mispred, on_resolved}
use ysyx_np_sim.Branch.Tage.Bounds.{fold_ghr-ends}
use ysyx_np_sim.Branch.Tage.Valid.{TageValid}
use ysyx_np_sim.Branch.Tage.Recover.{predictions, on_mispred-predictions, outcome_late}

abbrev small : Tage
small = record {
  accesses = 0;
  base_table = 1 ∷ 1 ∷ [];
  base_mask = 1;
  base_idx_bits = 1;
  comps = init_comp 1 2 ∷ init_comp 1 4 ∷ [];
  ghr = 5;
  ghr_mask = 15;
  snap_ring = replicate snap_ring_len empty_snap;
  snap_wr_idx = 4294967295;
  u_reset_ctr = 0;
  tage_stats = init_stats;
}

small-TageValid : TageValid small
small-TageValid = record {
  base_mask_is = refl;
  base_size = refl;
  comps_valid = (
    record { bits_pos = omega arith; mask_is = refl; table_size = refl },
    (record { bits_pos = omega arith; mask_is = refl; table_size = refl }, tt),
  );
  ring_size = length-replicate snap_ring_len empty_snap;
  wr_idx_word = omega arith;
}

fold_ghr-ends_example : Returns (fold_ghr 0xdeadbeefcafe 64 7) (λ r. r < 2 ^ 7)
fold_ghr-ends_example = fold_ghr-ends 0xdeadbeefcafe 64 7 (omega arith)

-- The identifier wraps between the branch and the two that follow it.
on_mispred-predictions_example :
    Returns
      (predictions small ((0x80000010, 0x80000000) ∷ (0x80000020, 0) ∷ (0x80000010, 4) ∷ []))
      (λ t'. (on_mispred t' true 0 4294967295).ghr ≡ shift 5 true 15)
on_mispred-predictions_example =
    on_mispred-predictions small 0x80000010 0x80000000 ((0x80000020, 0) ∷ (0x80000010, 4) ∷ []) true
      0 small-TageValid (omega arith)

abbrev loop : List (ℕ × ℕ)
loop = replicate 512 (0x80000010, 0x80000000)

loop-length : length loop ≡ 512
loop-length = refl

abbrev late : BranchResult
late = record no_result { ghr_snap = 4294967295 }

outcome_late_example : Returns (predictions small loop) (λ t'.
    (update t' 0x80000010 true true 0 4294967295
      ≡ some (record t' {
        tage_stats = record t'.tage_stats {
          snap_ring_overflow = incr t'.tage_stats.snap_ring_overflow;
        };
      }))
    × (on_mispred t' true 0 4294967295 ≡ t')
    × (on_resolved t' true late ≡ t'))
outcome_late_example =
    outcome_late small loop 0x80000010 true true 0 late small-TageValid (omega (arith, loop-length))
      (omega (arith, loop-length)) refl
