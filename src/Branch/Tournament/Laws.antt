-- ===== src/Branch/Tournament/Laws.antt =====
-- `TournamentPredictor`: accesses in range, the history, and how the selector learns.
use ysyx_np_sim.Prelude.{
  ℕ, ◌^◌, ◌<◌, ◌≡◌, refl, ◌∙◌, Bool, true, false, some, List, ◌∷◌, arith, ones, shr, bit_xor,
  bit_and-mask, power_pos, beq, All, All-set, All-get_elem?, All-replicate, replicate, length,
  length-set, length-replicate, get_elem?, set_at, get_elem?_of_lt, set_at_of_lt, Returns,
  Returns-bind,
}
use native.Mathlib.Nat.{mod-lt}
use ysyx_np_sim.Branch.Counter.{IsCnt, count, count_up, count_down, taken_of, count-IsCnt}
use ysyx_np_sim.Branch.History.{Holds, shift-Holds}
use ysyx_np_sim.Branch.Tournament.{
  Tournament, init, local_index, global_index, predict, choose, update,
}

-- A table of 2-bit counters with an entry for each index.
pub record IsTable (pow2 : ℕ) (table : List ℕ) : Type 0 where
  pub sized : length table ≡ 2 ^ pow2
  pub counters : All IsCnt table

pub record IsValid (pow2 : ℕ) (t : Tournament) : Type 0 where
  pub masked : t.mask ≡ ones pow2
  pub hist_masked : t.hist_mask ≡ ones t.history_len
  pub hist_short : t.history_len < 32
  pub locals : IsTable pow2 t.local_table
  pub globals : IsTable pow2 t.global_table
  pub selectors : IsTable pow2 t.selector_table

pub init-IsValid : (pow2 len : ℕ) → len < 32 → IsValid pow2 (init pow2 len)
unfolding init
init-IsValid pow2 len h = record {
  masked = refl;
  hist_masked = refl;
  hist_short = h;
  locals = fresh;
  globals = fresh;
  selectors = fresh;
}
  where
    fresh : IsTable pow2 (replicate (2 ^ pow2) 1)
    fresh = record {
      sized = length-replicate (2 ^ pow2) 1;
      counters = All-replicate IsCnt (2 ^ pow2) 1 (omega arith);
    }

module _ (pow2 : ℕ) where
  read :
      (table : List ℕ) (i : ℕ)
      → IsTable pow2 table
      → i < 2 ^ pow2
      → Returns (get_elem? table i) IsCnt
  read table i v h = go (get_elem?_of_lt table i (rw v.sized h))
    where
      go : (c : ℕ) × (get_elem? table i ≡ some c) → Returns (get_elem? table i) IsCnt
      go (c, e) = rw e (All-get_elem? IsCnt table i v.counters e)

  write :
      (table : List ℕ) (i c : ℕ)
      → IsTable pow2 table
      → i < 2 ^ pow2
      → IsCnt c
      → Returns (set_at table i c) (IsTable pow2)
  write table i c v h k = rw (set_at_of_lt table i c (rw v.sized h)) (record {
    sized = length-set table i c ∙ v.sized;
    counters = All-set IsCnt table i c v.counters k;
  })

  local_index-lt : (t : Tournament) (pc : ℕ) → IsValid pow2 t → local_index t pc < 2 ^ pow2
  unfolding local_index
  local_index-lt t pc v = rw (v.masked, bit_and-mask) (mod-lt (shr pc 2) (power_pos pow2))

  global_index-lt :
      (t : Tournament) (pc ghr : ℕ) → IsValid pow2 t → global_index t pc ghr < 2 ^ pow2
  unfolding global_index
  global_index-lt t pc ghr v =
      rw (v.masked, bit_and-mask) (mod-lt (bit_xor (shr pc 2) ghr) (power_pos pow2))

  -- On a valid predictor whose register holds the outcomes so far, `predict` makes no access out
  -- of range, stays valid, changes no table, and adds the predicted direction to the outcomes.
  pub predict-choice :
      (t : Tournament) (pc : ℕ) (outcomes : List Bool)
      → IsValid pow2 t
      → Holds t.history_len t.global_history outcomes
      → Returns (predict t pc) (λ x.
        IsValid pow2 x.1
        × (x.0.ghr_snap ≡ t.global_history)
        × Holds t.history_len x.1.global_history (x.0.taken ∷ outcomes))
  unfolding predict
  predict-choice t pc outcomes v h =
      Returns-bind IsCnt _ (get_elem? t.local_table (local_index t pc)) _
        (read t.local_table (local_index t pc) v.locals (local_index-lt t pc v))
        λ local hl.
          Returns-bind IsCnt _ (get_elem? t.global_table gi) _
            (read t.global_table gi v.globals (global_index-lt t pc t.global_history v))
            λ global hg.
              Returns-bind IsCnt _ (get_elem? t.selector_table (local_index t pc)) _
                (read t.selector_table (local_index t pc) v.selectors (local_index-lt t pc v))
                λ sel hs. (
                  speculated _ _,
                  refl,
                  rw v.hist_masked
                      (shift-Holds t.history_len t.global_history _ outcomes v.hist_short h),
                )
    where
      gi : ℕ
      gi = global_index t pc t.global_history

      speculated : (n ghr : ℕ) → IsValid pow2 (record t { accesses = n; global_history = ghr })
      speculated n ghr = record {
        masked = v.masked;
        hist_masked = v.hist_masked;
        hist_short = v.hist_short;
        locals = v.locals;
        globals = v.globals;
        selectors = v.selectors;
      }

  choose_lem :
      (local_correct global_correct : Bool) (li : ℕ) (selectors : List ℕ)
      → IsTable pow2 selectors
      → li < 2 ^ pow2
      → Returns (choose local_correct global_correct li selectors) (IsTable pow2)
  unfolding choose
  choose_lem true true li selectors v h = v
  choose_lem false false li selectors v h = v
  choose_lem true false li selectors v h =
      Returns-bind IsCnt _ (get_elem? selectors li) _ (read selectors li v h)
        (λ sel hs. write selectors li (count_down sel) v h (count-IsCnt false sel hs))
  choose_lem false true li selectors v h =
      Returns-bind IsCnt _ (get_elem? selectors li) _ (read selectors li v h)
        (λ sel hs. write selectors li (count_up sel) v h (count-IsCnt true sel hs))

  -- `update` makes no access out of range, keeps every counter in two bits, and leaves the history.
  pub update-IsValid :
      (t : Tournament) (pc : ℕ) (taken : Bool) (old_ghr : ℕ)
      → IsValid pow2 t
      → Returns
          (update t pc taken old_ghr)
          (λ t'. IsValid pow2 t' × (t'.global_history ≡ t.global_history))
  unfolding update
  update-IsValid t pc taken old_ghr v =
      Returns-bind IsCnt _ (get_elem? t.local_table li) _ (read t.local_table li v.locals hli)
        λ local hl.
          Returns-bind IsCnt _ (get_elem? t.global_table gi) _
            (read t.global_table gi v.globals hgi)
            λ global hg.
              Returns-bind (IsTable pow2) _
                (choose (beq (taken_of local) taken) (beq (taken_of global) taken) li
                  t.selector_table)
                _ (choose_lem _ _ li t.selector_table v.selectors hli)
                λ selectors hs.
                  Returns-bind (IsTable pow2) _ (set_at t.local_table li (count taken local)) _
                    (write t.local_table li _ v.locals hli (count-IsCnt taken local hl))
                    λ locals hls.
                      Returns-bind (IsTable pow2) _ (set_at t.global_table gi (count taken global))
                        _ (write t.global_table gi _ v.globals hgi (count-IsCnt taken global hg))
                        λ globals hgs. (
                          record {
                            masked = v.masked;
                            hist_masked = v.hist_masked;
                            hist_short = v.hist_short;
                            locals = hls;
                            globals = hgs;
                            selectors = hs;
                          },
                          refl,
                        )
    where
      li : ℕ
      li = local_index t pc

      gi : ℕ
      gi = global_index t pc old_ghr

      hli : li < 2 ^ pow2
      hli = local_index-lt t pc v

      hgi : gi < 2 ^ pow2
      hgi = global_index-lt t pc old_ghr v
