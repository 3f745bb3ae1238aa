-- ===== src/Branch/Tage/Update.antt =====
-- branchSim/Tage.cc: `update`, `on_mispred` and `on_resolved` of `TagePredictor`.
use ysyx_np_sim.Prelude.{
  ℕ, ◌+◌, ◌-◌, ◌/◌, ◌%◌, Bool, true, false, not, ◌&&◌, ◌||◌, Option, none, some, List, [], ◌∷◌, map,
  ◌>>=◌, if◌then◌else◌, ltb, leb, ◌==◌, beq, length, get_elem?, set_at, sub32, incr,
}
use ysyx_np_sim.Branch.Types.{BranchResult}
use ysyx_np_sim.Branch.Counter.{count}
use ysyx_np_sim.Branch.Tage.{
  Entry, Comp, Looked, Match, Snap, TageStats, Tage, shift, base_index, snap_ring_len, u_max,
  u_reset_period,
}
use ysyx_np_sim.Branch.Tage.Predict.{ctr_taken}

-- The prediction's place in the ring was taken by a later one.
abbrev pub is_late : Tage → ℕ → Bool
is_late t snap_id = leb snap_ring_len (sub32 t.snap_wr_idx snap_id)

abbrev pub update_ctr : ℕ → Bool → ℕ
update_ctr ctr taken =
    if taken then (if ltb ctr 7 then ctr + 1 else ctr) else (if ltb 0 ctr then ctr - 1 else ctr)

abbrev pub update_u : ℕ → Bool → ℕ
update_u u useful =
    if useful then (if ltb u u_max then u + 1 else u) else (if ltb 0 u then u - 1 else u)

abbrev pub put_entry : Comp → ℕ → Entry → Option Comp
put_entry c idx e = do table ← set_at c.table idx e; some (record c { table = table })

-- The provider's entry follows the outcome; where the alternative says otherwise, so does `u`.
abbrev pub trained : Entry → Match → Bool → Bool → Entry
trained e p alt_taken taken = record e {
  ctr = update_ctr e.ctr taken;
  u = if beq (ctr_taken p.ctr) alt_taken then e.u else update_u e.u (beq (ctr_taken p.ctr) taken);
}

pub train_provider : List Comp → Option Match → Bool → Bool → Option (List Comp)
train_provider comps none alt_taken taken = some comps
train_provider comps (some p) alt_taken taken = do
  c ← get_elem? comps p.comp
  e ← get_elem? c.table p.idx
  c' ← put_entry c p.idx (trained e p alt_taken taken)
  set_at comps p.comp c'

-- The first component above the provider.
abbrev pub start_of : Option Match → ℕ
start_of none = 0
start_of (some p) = p.comp + 1

-- The shortest component of number `start` or more, among those from `i` on, whose entry is free.
pub find_free : ℕ → ℕ → List Comp → List Looked → Option (Option ℕ)
find_free start i [] looked = some none
find_free start i (c ∷ cs) [] = none
find_free start i (c ∷ cs) (l ∷ ls) =
    let rest = find_free start (i + 1) cs ls in
    let here =
      get_elem? c.table l.fidx >>= λ e. (if not e.valid || e.u == 0 then some (some i) else rest) in
    if ltb i start then rest else here

-- `if (e.valid && e.u > 0) e.u--`
abbrev pub weaken : Entry → Entry
weaken e = if e.valid && ltb 0 e.u then record e { u = e.u - 1 } else e

pub weaken_from : ℕ → ℕ → List Comp → List Looked → Option (List Comp)
weaken_from start i [] looked = some []
weaken_from start i (c ∷ cs) [] = none
weaken_from start i (c ∷ cs) (l ∷ ls) = do
  let weakened = get_elem? c.table l.fidx >>= λ e. put_entry c l.fidx (weaken e)
  c' ← if ltb i start then some c else weakened
  cs' ← weaken_from start (i + 1) cs ls
  some (c' ∷ cs')

-- A new entry, whose counter is weak.
pub claim_entry : List Comp → ℕ → List Looked → Bool → Option (List Comp)
claim_entry comps i looked taken = do
  c ← get_elem? comps i
  l ← get_elem? looked i
  let e : Entry = record { ctr = if taken then 4 else 3; u = 0; tag = l.ftag; valid = true }
  c' ← put_entry c l.fidx e
  set_at comps i c'

allocate_at : Tage → ℕ → Snap → Bool → Option ℕ → Option Tage
unfolding weaken_from claim_entry
allocate_at t start snap taken none = do
  comps ← weaken_from start 0 t.comps snap.looked
  let stats = t.tage_stats
  some (record t {
    comps = comps;
    tage_stats = record stats { alloc_failures = incr stats.alloc_failures };
  })
allocate_at t start snap taken (some i) = do
  comps ← claim_entry t.comps i snap.looked taken
  let stats = t.tage_stats
  some (record t {
    comps = comps;
    tage_stats = record stats { allocations = incr stats.allocations };
  })

-- A misprediction takes an entry of a longer history.
allocate : Tage → Snap → Bool → Option Tage
unfolding find_free allocate_at
allocate t snap taken =
    let stats = t.tage_stats in
    let t1 = record t { tage_stats = record stats { alloc_tried = incr stats.alloc_tried } } in
    let start = start_of snap.provider in
    let allocated =
      find_free start 0 t1.comps snap.looked >>= λ free. allocate_at t1 start snap taken free in
    if beq snap.tage_taken taken
    then some t
    else if ltb start (length t.comps)
    then allocated
    else some t1

abbrev pub halve : Entry → Entry
halve e = if e.valid then record e { u = e.u / 2 } else e

abbrev pub halve_comp : Comp → Comp
halve_comp c = record c { table = map halve c.table }

-- Every 2^18 updates all usefulness counters are halved.
reset_u : Tage → Tage
reset_u t =
    let n = t.u_reset_ctr + 1 in
    if leb u_reset_period n
    then record t { u_reset_ctr = 0; comps = map halve_comp t.comps }
    else record t { u_reset_ctr = n }

train : Tage → ℕ → Bool → ℕ → Snap → Option Tage
unfolding train_provider allocate reset_u
train t pc taken snap_id snap = do
  let i = base_index t pc
  cnt ← get_elem? t.base_table i
  base ← set_at t.base_table i (count taken cnt)
  comps ← train_provider t.comps snap.provider snap.alt_taken taken
  t1 ← allocate (record t { base_table = base; comps = comps }) snap taken
  let t2 = reset_u t1
  ring ← set_at t2.snap_ring (snap_id % snap_ring_len) (record snap { valid = false })
  some (record t2 { snap_ring = ring })

pub train_valid : Tage → ℕ → Bool → ℕ → Snap → Option Tage
unfolding train
train_valid t pc taken snap_id snap =
    let stats = t.tage_stats in
    let done = train t pc taken snap_id snap in
    if snap.valid
    then done
    else some (record t {
      tage_stats = record stats { update_snap_invalid = incr stats.update_snap_invalid };
    })

unfoldable pub update : Tage → ℕ → Bool → Bool → ℕ → ℕ → Option Tage
unfolding train_valid
update t pc taken btb_hit old_cnt snap_id = do
  let stats = t.tage_stats
  let done = get_elem? t.snap_ring (snap_id % snap_ring_len) >>= λ snap.
      train_valid t pc taken snap_id snap
  if is_late t snap_id
      then some (record t {
        tage_stats = record stats { snap_ring_overflow = incr stats.snap_ring_overflow };
      })
      else done

-- The snapshot at an index of the ring, which has all of them.
unfoldable pub restore : Tage → Bool → Option Snap → Tage
restore t actual_taken none = t
restore t actual_taken (some snap) = record t { ghr = shift snap.ghr_snap actual_taken t.ghr_mask }

unfoldable pub on_mispred : Tage → Bool → ℕ → ℕ → Tage
unfolding restore
on_mispred t actual_taken old_cnt snap_id =
    let restored = restore t actual_taken (get_elem? t.snap_ring (snap_id % snap_ring_len)) in
    if is_late t snap_id then t else restored

-- One more at an index of the array.
incr_at : List ℕ → ℕ → List ℕ
incr_at [] i = []
incr_at (x ∷ xs) i = let rest = incr_at xs (i - 1) in if i == 0 then incr x ∷ xs else x ∷ rest

abbrev pub incr_if : Bool → ℕ → ℕ
incr_if b n = if b then incr n else n

-- Which component gave the prediction.
count_source : TageStats → Option Match → Bool → TageStats
unfolding incr_at
count_source s none ok = record s {
  base_used = incr s.base_used;
  base_correct = incr_if ok s.base_correct;
  base_mispred = incr_if (not ok) s.base_mispred;
}
count_source s (some p) ok = record s {
  comp_used = incr_at s.comp_used p.comp;
  comp_correct = if ok then incr_at s.comp_correct p.comp else s.comp_correct;
  comp_mispred = if ok then s.comp_mispred else incr_at s.comp_mispred p.comp;
}

pub count_resolved : TageStats → Snap → Bool → Bool → TageStats
unfolding count_source
count_resolved s snap actual_taken overrode =
    let ok = beq snap.tage_taken actual_taken in
    let bimodal_ok = beq snap.bimodal_taken actual_taken in
    count_source
      (record s {
        tage_correct = incr_if ok s.tage_correct;
        tage_mispred = incr_if (not ok) s.tage_mispred;
        bimodal_correct = incr_if bimodal_ok s.bimodal_correct;
        bimodal_mispred = incr_if (not bimodal_ok) s.bimodal_mispred;
        tage_overrides = incr_if overrode s.tage_overrides;
        tage_override_helpful = incr_if (overrode && ok) s.tage_override_helpful;
        tage_override_harmful = incr_if (overrode && not ok) s.tage_override_harmful;
      })
      snap.provider ok

pub resolve : Tage → Bool → Bool → Option Snap → Tage
unfolding count_resolved
resolve t actual_taken overrode none = t
resolve t actual_taken overrode (some snap) =
    let stats = count_resolved t.tage_stats snap actual_taken overrode in
    if snap.valid then record t { tage_stats = stats } else t

unfoldable pub on_resolved : Tage → Bool → BranchResult → Tage
unfolding resolve
on_resolved t actual_taken pred =
    let found = get_elem? t.snap_ring (pred.ghr_snap % snap_ring_len) in
    let resolved = resolve t actual_taken pred.tage_overrode_bimodal found in
    if is_late t pred.ghr_snap then t else resolved
