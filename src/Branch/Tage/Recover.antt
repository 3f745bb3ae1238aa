-- ===== src/Branch/Tage/Recover.antt =====
-- The snapshots of TAGE: how long they last, and what becomes of an outcome that comes too late.
use ysyx_np_sim.Prelude.{
  ℕ, suc, ◌+◌, ◌%◌, ◌^◌, ◌≤◌, ◌<◌, ◌≡◌, ◌≢◌, refl, sym, ◌∙◌, ap, subst, Bool, true, false, arith,
  Option, some, List, [], ◌∷◌, ◌>>=◌, length, get_elem?, get_elem?-set_self, get_elem?-set_ne, u32,
  Returns, Returns-elim, Returns-map, incr,
}
use native.Mathlib.Nat.{mod-lt}
use ysyx_np_sim.Branch.Types.{PredResult, BranchResult}
use ysyx_np_sim.Branch.Tage.{Snap, Tage, shift, snap_ring_len}
use ysyx_np_sim.Branch.Tage.Predict.{predict}
use ysyx_np_sim.Branch.Tage.Update.{is_late, update, on_mispred, on_resolved}
use ysyx_np_sim.Branch.Tage.Valid.{TageValid, Predicted, predict-Predicted}

-- Branches predicted one after the other, each by its address and the target of the BTB.
pub predictions : Tage → List (ℕ × ℕ) → Option Tage
predictions t [] = some t
predictions t ((pc, target) ∷ bs) = do (r, t') ← predict t pc target; predictions t' bs

-- After `k` predictions, that of `id` among them, its snapshot is there.
record Kept (id ghr mask k : ℕ) (t : Tage) : Type 0 where
  valid : TageValid t
  wr_idx : t.snap_wr_idx ≡ u32 (id + k)
  ghr_mask : t.ghr_mask ≡ mask
  snap : Snap
  old_ghr : snap.ghr_snap ≡ ghr
  slot : get_elem? t.snap_ring (id % snap_ring_len) ≡ some snap

first-Kept :
    (t : Tage) (r : PredResult × Tage)
    → TageValid t
    → Predicted t r
    → Kept t.snap_wr_idx t.ghr t.ghr_mask 1 r.1
first-Kept t r v p = record {
  valid = p.valid;
  wr_idx = p.wr_idx;
  ghr_mask = p.ghr_mask;
  snap = p.snap;
  old_ghr = p.old_ghr;
  slot = rw (p.ring) (
      get_elem?-set_self t.snap_ring _ p.snap
        (rw (v.ring_size) (mod-lt t.snap_wr_idx (omega arith))));
}

-- Fewer than 512 predictions apart two snapshots have two slots.
slots-differ : (id k : ℕ) → id < 2 ^ 32 → 0 < k → k < 512 → u32 (id + k) % 512 ≢ id % 512
slots-differ id k h pos lt e = absurd (omega arith)

next-Kept :
    (id ghr mask k : ℕ) (t : Tage) (r : PredResult × Tage)
    → id < 2 ^ 32
    → 0 < k
    → k < 512
    → Kept id ghr mask k t
    → Predicted t r
    → Kept id ghr mask (k + 1) r.1
next-Kept id ghr mask k t r h pos lt kept p = record {
  valid = p.valid;
  wr_idx = p.wr_idx ∙ next (kept.wr_idx);
  ghr_mask = p.ghr_mask ∙ kept.ghr_mask;
  snap = kept.snap;
  old_ghr = kept.old_ghr;
  slot = rw (p.ring) (
      get_elem?-set_ne t.snap_ring _ (id % snap_ring_len) p.snap
        (λ e. slots-differ id k h pos lt (ap (λ (n : ℕ). n % 512) (sym kept.wr_idx) ∙ e))
      ∙ kept.slot);
}
  where
    next : t.snap_wr_idx ≡ u32 (id + k) → u32 (t.snap_wr_idx + 1) ≡ u32 (id + (k + 1))
    next e = rw e (omega arith)

predictions-Kept :
    (id ghr mask k : ℕ) (t : Tage) (bs : List (ℕ × ℕ))
    → id < 2 ^ 32
    → 0 < k
    → k + length bs ≤ 512
    → Kept id ghr mask k t
    → Returns (predictions t bs) (Kept id ghr mask (k + length bs))
unfolding predictions
predictions-Kept id ghr mask k t [] h pos lt kept =
    let e : k ≡ k + 0 = omega arith in subst (λ n. Kept id ghr mask n t) e kept
predictions-Kept id ghr mask k t ((pc, target) ∷ bs) h pos lt kept =
    let (r, er, p) =
      Returns-elim _ (predict t pc target) (predict-Predicted t pc target kept.valid) in
    let e : k + 1 + length bs ≡ k + suc (length bs) = omega arith in
    rw er (
      subst (λ n. Returns (predictions r.1 bs) (Kept id ghr mask n)) e
        (predictions-Kept id ghr mask (k + 1) r.1 bs h (omega arith) (omega arith)
          (next-Kept id ghr mask k t r h pos (omega arith) kept p)))

-- A misprediction that is found while fewer than 512 predictions were made, its own included, gives
-- the history the outcomes from before the branch and its actual direction, whatever branches were
-- predicted after it; none of the predictions faults.
pub on_mispred-predictions :
    (t : Tage) (pc target : ℕ) (bs : List (ℕ × ℕ)) (actual_taken : Bool) (old_cnt : ℕ)
    → TageValid t
    → length bs < 511
    → Returns (predictions t ((pc, target) ∷ bs)) (λ t'.
      (on_mispred t' actual_taken old_cnt t.snap_wr_idx).ghr ≡ shift t.ghr actual_taken t.ghr_mask)
unfolding predictions on_mispred
on_mispred-predictions t pc target bs actual_taken old_cnt v lt =
    let (r, er, p) = Returns-elim _ (predict t pc target) (predict-Predicted t pc target v) in
    rw er (
      Returns-map _ _ (predictions r.1 bs)
        (predictions-Kept t.snap_wr_idx t.ghr t.ghr_mask 1 r.1 bs (v.wr_idx_word) (omega arith)
          (omega arith) (first-Kept t r v p))
        (λ t' k.
          let on_time : is_late t' t.snap_wr_idx ≡ false =
            ground (arith, k.wr_idx, v.wr_idx_word) in
          rw (on_time, k.slot) (rw (k.old_ghr, k.ghr_mask) refl)))

predictions-wr_idx :
    (id k : ℕ) (t : Tage) (bs : List (ℕ × ℕ))
    → TageValid t
    → t.snap_wr_idx ≡ u32 (id + k)
    → Returns (predictions t bs) (λ t'. t'.snap_wr_idx ≡ u32 (id + (k + length bs)))
unfolding predictions
predictions-wr_idx id k t [] v e = e ∙ omega arith
predictions-wr_idx id k t ((pc, target) ∷ bs) v e =
    let (r, er, p) = Returns-elim _ (predict t pc target) (predict-Predicted t pc target v) in
    let moved : r.1.snap_wr_idx ≡ u32 (id + (k + 1)) = omega (arith, p.wr_idx) in
    let sum : k + 1 + length bs ≡ k + suc (length bs) = omega arith in
    rw er (
      subst (λ n. Returns (predictions r.1 bs) (λ t'. t'.snap_wr_idx ≡ u32 (id + n))) sum
        (predictions-wr_idx id (k + 1) r.1 bs p.valid moved))

-- From 512 predictions on, its own included, and until the identifiers have gone round, an outcome
-- changes neither a table nor the history: `update` counts that it came too late, and `on_mispred`
-- and `on_resolved` do nothing.
pub outcome_late :
    (t : Tage) (bs : List (ℕ × ℕ)) (pc : ℕ) (taken btb_hit : Bool) (old_cnt : ℕ)
    (pred : BranchResult)
    → TageValid t
    → 512 ≤ length bs
    → length bs < 2 ^ 32
    → pred.ghr_snap ≡ t.snap_wr_idx
    → Returns (predictions t bs) (λ t'.
      (update t' pc taken btb_hit old_cnt pred.ghr_snap
        ≡ some (record t' {
          tage_stats = record t'.tage_stats {
            snap_ring_overflow = incr t'.tage_stats.snap_ring_overflow;
          };
        }))
      × (on_mispred t' taken old_cnt pred.ghr_snap ≡ t')
      × (on_resolved t' taken pred ≡ t'))
unfolding update on_mispred on_resolved
outcome_late t bs pc taken btb_hit old_cnt pred v many few e =
    Returns-map _ _ (predictions t bs)
      (predictions-wr_idx t.snap_wr_idx 0 t bs v (omega (arith, v.wr_idx_word)))
      (λ t' k.
        let late : is_late t' pred.ghr_snap ≡ true = ground (arith, k, v.wr_idx_word) in
        rw late (refl, refl, refl))
