-- ===== src/Branch/GShare/Laws.antt =====
-- `GSharePredictor`: no exception, and a history that a misprediction rolls back.
use ysyx_np_sim.Prelude.{
  ℕ, ◌^◌, ◌≤◌, ◌<◌, ◌≡◌, refl, ◌∙◌, Bool, Option, some, List, [], ◌∷◌, ◌>>=◌, ones, shr, bit_xor,
  bit_and-mask, power_pos, All, All-set, All-get_elem?, All-replicate, length, length-set,
  length-replicate, get_elem?, set, get_elem?_of_lt, set_at_of_lt, Returns, Returns-bind,
  Returns-map,
}
use native.Mathlib.Nat.{mod-lt}
use ysyx_np_sim.Branch.Types.{PredResult}
use ysyx_np_sim.Branch.Counter.{IsCnt, next_cnt, taken_of, next_cnt-IsCnt}
use ysyx_np_sim.Branch.History.{Holds, shift-Holds}
use ysyx_np_sim.Branch.GShare.{GShare, init, index, predict, update, on_mispred}

-- `pow2` is `table_pow2` of the constructor.
pub record IsValid (pow2 : ℕ) (g : GShare) : Type 0 where
  pub masked : g.mask ≡ ones pow2
  pub sized : length g.table ≡ 2 ^ pow2
  pub hist_masked : g.hist_mask ≡ ones g.history_len
  pub hist_short : g.history_len < 32
  pub counters : All IsCnt g.table

pub init-IsValid : (pow2 len c : ℕ) → len < 32 → c ≤ 3 → IsValid pow2 (init pow2 len c)
unfolding init
init-IsValid pow2 len c hl hc = record {
  masked = refl;
  sized = length-replicate (2 ^ pow2) c;
  hist_masked = refl;
  hist_short = hl;
  counters = All-replicate IsCnt (2 ^ pow2) c hc;
}

-- Predictions and updates of other branches, in any order.
pub data Event : Type 0 where
  predicts : ℕ → Event
  updates : (pc : ℕ) (taken btb_hit : Bool) (old_cnt old_ghr : ℕ) → old_cnt ≤ 3 → Event

pub step : GShare → Event → Option GShare
step g (predicts pc) = do (r, g') ← predict g pc; some g'
step g (updates pc taken btb_hit old_cnt old_ghr h) = update g pc taken btb_hit old_cnt old_ghr

pub run : GShare → List Event → Option GShare
run g [] = some g
run g (e ∷ es) = do g' ← step g e; run g' es

module _ (pow2 : ℕ) where
  index-lt : (g : GShare) (pc ghr : ℕ) → IsValid pow2 g → index g pc ghr < length g.table
  unfolding index
  index-lt g pc ghr v =
      rw (v.masked, v.sized, bit_and-mask) (mod-lt (bit_xor (shr pc 2) ghr) (power_pos pow2))

  abbrev Reads : GShare → ℕ → ℕ → Type 0
  Reads g pc c = (get_elem? g.table (index g pc g.global_history) ≡ some c) × IsCnt c

  reads : (g : GShare) (pc : ℕ) → IsValid pow2 g → (c : ℕ) × Reads g pc c
  reads g pc v = go (get_elem?_of_lt g.table i (index-lt g pc g.global_history v))
    where
      i : ℕ
      i = index g pc g.global_history

      go : (c : ℕ) × (get_elem? g.table i ≡ some c) → (c : ℕ) × Reads g pc c
      go (c, e) = (c, (e, All-get_elem? IsCnt g.table i v.counters e))

  speculate-IsValid :
      (g : GShare) (n ghr : ℕ)
      → IsValid pow2 g
      → IsValid pow2 (record g { accesses = n; global_history = ghr })
  speculate-IsValid g n ghr v = record {
    masked = v.masked;
    sized = v.sized;
    hist_masked = v.hist_masked;
    hist_short = v.hist_short;
    counters = v.counters;
  }

  -- What a prediction leaves of the history and the tables.
  abbrev pub Predicted : GShare → List Bool → PredResult × GShare → Type 0
  Predicted g outcomes x =
      IsValid pow2 x.1
      × (x.0.bht_cnt ≤ 3)
      × (x.0.ghr_snap ≡ g.global_history)
      × (x.1.table ≡ g.table)
      × (x.1.history_len ≡ g.history_len)
      × Holds g.history_len x.1.global_history (x.0.taken ∷ outcomes)

  -- On a valid predictor whose register holds the outcomes so far, `predict` raises no exception
  -- and adds the predicted direction to them, and it hands out the register as it was before.
  pub predict-history :
      (g : GShare) (pc : ℕ) (outcomes : List Bool)
      → IsValid pow2 g
      → Holds g.history_len g.global_history outcomes
      → Returns (predict g pc) (Predicted g outcomes)
  unfolding predict
  predict-history g pc outcomes v h = go (reads g pc v)
    where
      go : (c : ℕ) × Reads g pc c → Returns (predict g pc) (Predicted g outcomes)
      go (c, r) = rw r.0 (
        speculate-IsValid g _ _ v,
        r.1,
        refl,
        refl,
        refl,
        rw v.hist_masked
            (shift-Holds g.history_len g.global_history (taken_of c) outcomes v.hist_short h),
      )

  -- `update` raises no exception, keeps the counters in two bits and leaves the history alone.
  pub update-counter :
      (g : GShare) (pc : ℕ) (taken btb_hit : Bool) (old_cnt old_ghr : ℕ)
      → IsValid pow2 g
      → old_cnt ≤ 3
      → Returns (update g pc taken btb_hit old_cnt old_ghr) (λ g'.
        IsValid pow2 g' × (g'.global_history ≡ g.global_history) × (g'.history_len ≡ g.history_len))
  unfolding update
  update-counter g pc taken btb_hit old_cnt old_ghr v h =
      rw
        (set_at_of_lt g.table (index g pc old_ghr) (next_cnt taken btb_hit old_cnt)
          (index-lt g pc old_ghr v))
        (written, refl, refl)
    where
      c : ℕ
      c = next_cnt taken btb_hit old_cnt

      written : IsValid pow2 (record g { table = set g.table (index g pc old_ghr) c })
      written = record {
        masked = v.masked;
        sized = length-set g.table (index g pc old_ghr) c ∙ v.sized;
        hist_masked = v.hist_masked;
        hist_short = v.hist_short;
        counters =
            All-set IsCnt g.table (index g pc old_ghr) c v.counters
              (next_cnt-IsCnt taken btb_hit old_cnt h);
      }

  abbrev Settled : ℕ → GShare → Type 0
  Settled len g = IsValid pow2 g × (g.history_len ≡ len)

  step_lem : (g : GShare) (e : Event) → IsValid pow2 g → Returns (step g e) (Settled g.history_len)
  unfolding step predict
  step_lem g (predicts pc) v = go (reads g pc v)
    where
      go : (c : ℕ) × Reads g pc c → Returns (step g (predicts pc)) (Settled g.history_len)
      go (c, r) = rw r.0 (speculate-IsValid g _ _ v, refl)
  step_lem g (updates pc taken btb_hit old_cnt old_ghr h) v =
      Returns-map _ _ (update g pc taken btb_hit old_cnt old_ghr)
        (update-counter g pc taken btb_hit old_cnt old_ghr v h) (λ g' x. (x.0, x.2))

  run_lem :
      (len : ℕ) (g : GShare) (es : List Event) → Settled len g → Returns (run g es) (Settled len)
  unfolding run
  run_lem len g [] v = v
  run_lem len g (e ∷ es) v =
      Returns-bind (Settled g.history_len) _ (step g e) (λ g'. run g' es) (step_lem g e v.0)
        (λ g' h. run_lem len g' es (h.0, h.1 ∙ v.1))

  -- Misprediction recovery: predict a branch, let any predictions and updates follow, none of
  -- which fails, and report the branch mispredicted. The register then holds the outcomes from
  -- before the branch and its actual direction, and nothing of what was speculated since.
  pub on_mispred_recovers :
      (g : GShare) (pc : ℕ) (outcomes : List Bool) (es : List Event) (actual : Bool)
      → IsValid pow2 g
      → Holds g.history_len g.global_history outcomes
      → Returns (predict g pc) (λ x. Returns (run x.1 es) (λ g'.
        Holds g.history_len (on_mispred g' actual x.0.ghr_snap).global_history (actual ∷ outcomes)))
  unfolding on_mispred
  on_mispred_recovers g pc outcomes es actual v h =
      Returns-map _ _ (predict g pc) (predict-history g pc outcomes v h) (λ x p. later x p)
    where
      later :
          (x : PredResult × GShare)
          → Predicted g outcomes x
          → Returns (run x.1 es) (λ g'.
            Holds g.history_len
              (on_mispred g' actual x.0.ghr_snap).global_history
              (actual ∷ outcomes))
      later (r, g1) p = Returns-map _ _ (run g1 es) (run_lem g.history_len g1 es (p.0, p.4)) λ g' w.
          rw (w.0.hist_masked, p.2, w.1)
            (shift-Holds g.history_len g.global_history actual outcomes v.hist_short h)
