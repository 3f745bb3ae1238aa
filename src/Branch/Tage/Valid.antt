-- ===== src/Branch/Tage/Valid.antt =====
-- `predict` of TAGE reads and writes in range only.
use ysyx_np_sim.Prelude.{
  ℕ, ◌+◌, ◌%◌, ◌^◌, ◌<◌, ◌≡◌, refl, ◌∙◌, not, arith, List, [], ◌∷◌, ◌==◌, ones, All, length,
  length-set, set, get_elem?_of_lt, set_at_of_lt, u32, bit_xor-lt, Returns, Returns-elim, map,
  length-replicate, Ensures, Ensures-then, leb,
}
use native.Mathlib.Nat.{mod-lt}
use ysyx_np_sim.Branch.Types.{PredResult}
use ysyx_np_sim.Branch.Tage.{
  Comp, Snap, Tage, base_index, snap_ring_len, init_comp, empty_entry, empty_snap, init, first,
  max_comp,
}
use ysyx_np_sim.Branch.Tage.Fold.{comp_idx, comp_tag}
use ysyx_np_sim.Branch.Tage.Predict.{look, look_all, snap_of, predict}
use ysyx_np_sim.Branch.Tage.Bounds.{masked-lt, CompValid, comp_idx-Returns, comp_tag-Returns}

-- The tables and the ring have the sizes that the masks are for.
pub record TageValid (t : Tage) : Type 0 where
  pub base_mask_is : t.base_mask ≡ ones t.base_idx_bits
  pub base_size : length t.base_table ≡ 2 ^ t.base_idx_bits
  pub comps_valid : All CompValid t.comps
  pub ring_size : length t.snap_ring ≡ snap_ring_len
  pub wr_idx_word : t.snap_wr_idx < 2 ^ 32

base_index-lt : (t : Tage) (pc : ℕ) → TageValid t → base_index t pc < length t.base_table
unfolding base_index
base_index-lt t pc v =
    rw (v.base_size, v.base_mask_is)
      (bit_xor-lt t.base_idx_bits _ _ (masked-lt t.base_idx_bits _) (masked-lt t.base_idx_bits _))

look-Returns : (c : Comp) (pc ghr : ℕ) → CompValid c → Returns (look c pc ghr) (λ l. Unit {0})
unfolding look
look-Returns c pc ghr v =
    let (i, ei, lt) = Returns-elim _ (comp_idx c pc ghr) (comp_idx-Returns c pc ghr v) in
    let (tag, et, k) = Returns-elim _ (comp_tag c pc ghr) (comp_tag-Returns c pc ghr) in
    let (e, ee) = get_elem?_of_lt c.table i lt in rw (ei, et, ee) tt

look_all-Returns :
    (cs : List Comp) (pc ghr : ℕ) → All CompValid cs → Returns (look_all cs pc ghr) (λ ls. Unit {0})
unfolding look_all
look_all-Returns [] pc ghr v = tt
look_all-Returns (c ∷ cs) pc ghr v =
    let (l, el, k) = Returns-elim _ (look c pc ghr) (look-Returns c pc ghr v.0) in
    let (ls, els, k') = Returns-elim _ (look_all cs pc ghr) (look_all-Returns cs pc ghr v.1) in
    rw (el, els) tt

-- What a prediction leaves behind: the next identifier, its snapshot with the history from before
-- it, and nothing changed in the ring but that.
pub record Predicted (t : Tage) (r : PredResult × Tage) : Type 0 where
  pub valid : TageValid r.1
  pub id : r.0.ghr_snap ≡ t.snap_wr_idx
  pub wr_idx : r.1.snap_wr_idx ≡ u32 (t.snap_wr_idx + 1)
  pub ghr_mask : r.1.ghr_mask ≡ t.ghr_mask
  pub snap : Snap
  pub old_ghr : snap.ghr_snap ≡ t.ghr
  pub ring : r.1.snap_ring ≡ set t.snap_ring (t.snap_wr_idx % snap_ring_len) snap

pub predict-Predicted :
    (t : Tage) (pc btb_target : ℕ) → TageValid t → Returns (predict t pc btb_target) (Predicted t)
unfolding predict snap_of
predict-Predicted t pc btb_target v =
    let (base_cnt, eb) = get_elem?_of_lt t.base_table _ (base_index-lt t pc v) in
    let (looked, el, k) =
      Returns-elim _ (look_all t.comps pc t.ghr)
        (look_all-Returns t.comps pc t.ghr v.comps_valid) in
    let s = snap_of t base_cnt looked (not (btb_target == 0)) in
    let at = t.snap_wr_idx % snap_ring_len in
    let lt : at < length t.snap_ring = rw (v.ring_size) (mod-lt t.snap_wr_idx (omega arith)) in
    rw (eb, el, set_at_of_lt t.snap_ring at s lt)
      (record {
        valid = record {
          base_mask_is = v.base_mask_is;
          base_size = v.base_size;
          comps_valid = v.comps_valid;
          ring_size = length-set t.snap_ring at s ∙ v.ring_size;
          wr_idx_word = mod-lt (t.snap_wr_idx + 1) (omega arith);
        };
        id = refl;
        wr_idx = refl;
        ghr_mask = refl;
        snap = s;
        old_ghr = refl;
        ring = refl;
      })

init_comps-valid :
    (comp_pow2 : ℕ) (lens : List ℕ) → 0 < comp_pow2 → All CompValid (map (init_comp comp_pow2) lens)
init_comps-valid comp_pow2 [] h = tt
init_comps-valid comp_pow2 (len ∷ lens) h = (
  record {
    bits_pos = h;
    mask_is = refl;
    table_size = length-replicate (2 ^ comp_pow2) empty_entry;
  },
  init_comps-valid comp_pow2 lens h,
)

-- The constructor's predictor is valid.
pub init-TageValid :
    (base_pow2 comp_pow2 : ℕ) (lens : List ℕ) → Ensures (init base_pow2 comp_pow2 lens) TageValid
unfolding init
init-TageValid base_pow2 comp_pow2 lens =
    let comps = map (init_comp comp_pow2) (first max_comp lens) in
    Ensures-then TageValid (leb 1 (length comps)) _ (λ _.
      Ensures-then TageValid (leb 1 comp_pow2) _ (λ e. record {
        base_mask_is = refl;
        base_size = length-replicate (2 ^ base_pow2) 1;
        comps_valid = init_comps-valid comp_pow2 (first max_comp lens) (ground arith);
        ring_size = length-replicate snap_ring_len empty_snap;
        wr_idx_word = omega arith;
      }))
