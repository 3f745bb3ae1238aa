-- ===== src/Branch/Tage/Predict.antt =====
-- branchSim/Tage.cc: `predict` of `TagePredictor`.
use ysyx_np_sim.Prelude.{
  ℕ, ◌+◌, ◌%◌, Bool, true, not, ◌&&◌, ◌||◌, Option, none, some, List, [], ◌∷◌, ◌>>=◌, if◌then◌else◌,
  leb, ◌==◌, beq, get_elem?, set_at, u32, incr,
}
use ysyx_np_sim.Branch.Types.{PredResult}
use ysyx_np_sim.Branch.Tage.{Comp, Looked, Match, Snap, Tage, shift, base_index, snap_ring_len}
use ysyx_np_sim.Branch.Tage.Fold.{comp_idx, comp_tag}

-- One component's index, tag and entry.
unfoldable pub look : Comp → ℕ → ℕ → Option Looked
look c pc ghr = do
  idx ← comp_idx c pc ghr
  tag ← comp_tag c pc ghr
  e ← get_elem? c.table idx
  some (record { fidx = idx; ftag = tag; hit = e.valid && e.tag == tag; ctr = e.ctr; u = e.u })

unfoldable pub look_all : List Comp → ℕ → ℕ → Option (List Looked)
unfolding look
look_all [] pc ghr = some []
look_all (c ∷ cs) pc ghr = do l ← look c pc ghr; ls ← look_all cs pc ghr; some (l ∷ ls)

abbrev pub match_of : ℕ → Looked → Match
match_of i l = record { comp = i; idx = l.fidx; ctr = l.ctr; u = l.u }

-- A shorter component comes after the two longest matches.
add_match : Option Match → Match → Option Match × Option Match → Option Match × Option Match
add_match hit m (none, alt) = (hit, alt)
add_match hit m (some p, none) = (some p, hit)
add_match hit m (some p, some a) = (some p, some a)

-- The provider and the alternative: the two longest components that match, from number `i` on.
pub pick : ℕ → List Looked → Option Match × Option Match
unfolding add_match
pick i [] = (none, none)
pick i (l ∷ ls) =
    let m = match_of i l in add_match (if l.hit then some m else none) m (pick (i + 1) ls)

-- `ctr >= 0`
abbrev pub ctr_taken : ℕ → Bool
ctr_taken ctr = leb 4 ctr

pub alt_direction : Option Match → Bool → Bool
alt_direction none bimodal_taken = bimodal_taken
alt_direction (some a) bimodal_taken = ctr_taken a.ctr

-- A counter of 0 or -1 that was never useful.
abbrev pub is_weak : Match → Bool
is_weak p = (p.ctr == 4 || p.ctr == 3) && p.u == 0

pub direction : Option Match → Bool → Bool → Bool
direction none alt_taken bimodal_taken = bimodal_taken
direction (some p) alt_taken bimodal_taken = if is_weak p then alt_taken else ctr_taken p.ctr

-- What `predict` stores of a prediction.
unfoldable pub snap_of : Tage → ℕ → List Looked → Bool → Snap
unfolding pick alt_direction direction
snap_of t base_cnt looked btb_hit =
    let (provider, alt) = pick 0 looked in
    let bimodal_taken = leb 2 base_cnt in
    let alt_taken = alt_direction alt bimodal_taken in
    record {
      valid = true;
      bimodal_taken = bimodal_taken;
      tage_taken = direction provider alt_taken bimodal_taken;
      btb_hit_at_pred = btb_hit;
      base_cnt = base_cnt;
      provider = provider;
      alt_provider = alt;
      alt_taken = alt_taken;
      ghr_snap = t.ghr;
      looked = looked;
    }

-- The history moves on where the BTB hits.
abbrev pub predicted_ghr : Tage → Bool → Bool → ℕ
predicted_ghr t btb_hit taken = if btb_hit then shift t.ghr taken t.ghr_mask else t.ghr

unfoldable pub predict : Tage → ℕ → ℕ → Option (PredResult × Tage)
predict t pc btb_target = do
  base_cnt ← get_elem? t.base_table (base_index t pc)
  looked ← look_all t.comps pc t.ghr
  let btb_hit = not (btb_target == 0)
  let snap = snap_of t base_cnt looked btb_hit
  ring ← set_at t.snap_ring (t.snap_wr_idx % snap_ring_len) snap
  some (
    record {
      taken = snap.tage_taken;
      bht_cnt = 0;
      ghr_snap = t.snap_wr_idx;
      tage_overrode_bimodal = btb_hit && not (beq snap.tage_taken snap.bimodal_taken);
    },
    record t {
      accesses = incr t.accesses;
      ghr = predicted_ghr t btb_hit snap.tage_taken;
      snap_ring = ring;
      snap_wr_idx = u32 (t.snap_wr_idx + 1);
    },
  )
