-- ===== src/Branch/Bimodal/Laws.antt =====
-- `BimodalPredictor`: its tables are never read or written out of range, and it learns.
use ysyx_np_sim.Prelude.{
  ℕ, zero, suc, ◌%◌, ◌^◌, ◌≤◌, ◌<◌, ◌≡◌, refl, Bool, false, Option, List, some, ◌>>=◌, arith, ones,
  incr, bit_and-mask, bit_xor-lt, All, All-set, All-get_elem?, All-replicate, length, length-set,
  length-replicate, get_elem?, set, get_elem?_of_lt, get_elem?-set_self, set_at_of_lt, Returns,
  Returns-bind, Returns-map, ◌∙◌,
}
use native.Mathlib.Nat.{mod-lt, one-le-pow}
use ysyx_np_sim.Branch.Counter.{IsCnt, next_cnt, taken_of, next_cnt-IsCnt}
use ysyx_np_sim.Branch.Bimodal.{Bimodal, init, index, predict, update}

pub record IsValid (b : Bimodal) : Type 0 where
  pub masked : b.mask ≡ ones b.idx_bits
  pub sized : length b.table ≡ 2 ^ b.idx_bits
  pub counters : All IsCnt b.table

pub index-lt : (b : Bimodal) (pc : ℕ) → IsValid b → index b pc < length b.table
unfolding index
index-lt b pc v =
    rw (v.masked, v.sized, bit_and-mask, bit_and-mask)
      (bit_xor-lt b.idx_bits _ _ (small _) (small _))
  where
    small : (x : ℕ) → x % 2 ^ b.idx_bits < 2 ^ b.idx_bits
    small x = mod-lt x (one-le-pow b.idx_bits 2 (omega arith))

pub init-IsValid : (k c : ℕ) → c ≤ 3 → IsValid (init k c)
unfolding init
init-IsValid k c h = record {
  masked = refl;
  sized = length-replicate (2 ^ k) c;
  counters = All-replicate IsCnt (2 ^ k) c h;
}

-- What the code reads at the index of `pc`.
abbrev pub Reads : Bimodal → ℕ → ℕ → Type 0
Reads b pc c = (get_elem? b.table (index b pc) ≡ some c) × IsCnt c

reads : (b : Bimodal) (pc : ℕ) → IsValid b → (c : ℕ) × Reads b pc c
reads b pc v = go (get_elem?_of_lt b.table (index b pc) (index-lt b pc v))
  where
    go : (c : ℕ) × (get_elem? b.table (index b pc) ≡ some c) → (c : ℕ) × Reads b pc c
    go (c, e) = (c, (e, All-get_elem? IsCnt b.table (index b pc) v.counters e))

predict_of_Reads :
    (b : Bimodal) (pc c : ℕ)
    → Reads b pc c
    → predict b pc
      ≡ some (
        record { taken = taken_of c; bht_cnt = c; ghr_snap = 0; tage_overrode_bimodal = false },
        record b { accesses = incr b.accesses },
      )
unfolding predict
predict_of_Reads b pc c r = rw r.0

update_lem :
    (b : Bimodal) (pc : ℕ) (taken btb_hit : Bool) (old_cnt : ℕ)
    → IsValid b
    → update b pc taken btb_hit old_cnt
      ≡ some (record b { table = set b.table (index b pc) (next_cnt taken btb_hit old_cnt) })
unfolding update
update_lem b pc taken btb_hit old_cnt v =
    rw (set_at_of_lt b.table (index b pc) (next_cnt taken btb_hit old_cnt) (index-lt b pc v))

write-IsValid :
    (b : Bimodal) (i c : ℕ) → IsValid b → IsCnt c → IsValid (record b { table = set b.table i c })
write-IsValid b i c v h = record {
  masked = v.masked;
  sized = length-set b.table i c ∙ v.sized;
  counters = All-set IsCnt b.table i c v.counters h;
}

count_access-IsValid : (b : Bimodal) (n : ℕ) → IsValid b → IsValid (record b { accesses = n })
count_access-IsValid b n v = record { masked = v.masked; sized = v.sized; counters = v.counters }

-- On a valid predictor, `predict` and `update` raise no exception, whatever the address, and keep
-- it valid; `update` keeps it so if it is handed a 2-bit counter, such as `predict` returns.
pub predict_update_total :
    (b : Bimodal) (pc : ℕ) (taken btb_hit : Bool) (old_cnt : ℕ)
    → IsValid b
    → old_cnt ≤ 3
    → Returns (predict b pc) (λ x. IsValid x.1 × (x.0.bht_cnt ≤ 3))
      × Returns (update b pc taken btb_hit old_cnt) IsValid
predict_update_total b pc taken btb_hit old_cnt v h = (seen (reads b pc v), written)
  where
    seen : (c : ℕ) × Reads b pc c → Returns (predict b pc) (λ x. IsValid x.1 × (x.0.bht_cnt ≤ 3))
    seen (c, r) = rw (predict_of_Reads b pc c r) (count_access-IsValid b (incr b.accesses) v, r.1)

    written : Returns (update b pc taken btb_hit old_cnt) IsValid
    written =
        rw (update_lem b pc taken btb_hit old_cnt v)
          (write-IsValid b (index b pc) _ v (next_cnt-IsCnt taken btb_hit old_cnt h))

index_state :
    (b : Bimodal) (n : ℕ) (t : List ℕ) (pc : ℕ)
    → index (record b { accesses = n; table = t }) pc ≡ index b pc
unfolding index
index_state b n t pc = refl

-- One resolved branch: predict it, then update with the counter that the prediction carried.
unfoldable pub resolve : Bimodal → ℕ → Bool → Bool → Option Bimodal
resolve b pc taken btb_hit = do (r, b') ← predict b pc; update b' pc taken btb_hit r.bht_cnt

unfoldable pub train : ℕ → Bimodal → ℕ → Bool → Bool → Option Bimodal
train zero b pc taken btb_hit = some b
train (suc n) b pc taken btb_hit = do b' ← resolve b pc taken btb_hit; train n b' pc taken btb_hit

-- The counter after `n` branches that went the same way.
abbrev steps : ℕ → Bool → Bool → ℕ → ℕ
steps zero taken btb_hit c = c
steps (suc n) taken btb_hit c = steps n taken btb_hit (next_cnt taken btb_hit c)

resolve_lem :
    (b : Bimodal) (pc c : ℕ) (taken btb_hit : Bool)
    → IsValid b
    → Reads b pc c
    → Returns
        (resolve b pc taken btb_hit)
        (λ b'. IsValid b' × Reads b' pc (next_cnt taken btb_hit c))
unfolding resolve
resolve_lem b pc c taken btb_hit v r = rw (predict_of_Reads b pc c r) written
  where
    new : ℕ
    new = next_cnt taken btb_hit c

    seen : Bimodal
    seen = record b { accesses = incr b.accesses }

    written :
        Returns
          (update seen pc taken btb_hit c)
          (λ b'. IsValid b' × Reads b' pc (next_cnt taken btb_hit c))
    written = rw (update_lem seen pc taken btb_hit c (count_access-IsValid b (incr b.accesses) v)) (
      write-IsValid seen (index seen pc) _ (count_access-IsValid b (incr b.accesses) v)
          (next_cnt-IsCnt taken btb_hit c r.1),
      (
        rw (index_state b (incr b.accesses) (set b.table (index seen pc) new) pc) (
            rw (index_state b (incr b.accesses) b.table pc)
              (get_elem?-set_self b.table (index b pc) new (index-lt b pc v))),
        next_cnt-IsCnt taken btb_hit c r.1,
      ),
    )

train_lem :
    (n : ℕ) (b : Bimodal) (pc c : ℕ) (taken btb_hit : Bool)
    → IsValid b
    → Reads b pc c
    → Returns
        (train n b pc taken btb_hit)
        (λ b'. IsValid b' × Reads b' pc (steps n taken btb_hit c))
unfolding train
train_lem zero b pc c taken btb_hit v r = (v, r)
train_lem (suc n) b pc c taken btb_hit v r =
    Returns-bind (λ b'. IsValid b' × Reads b' pc (next_cnt taken btb_hit c)) _
      (resolve b pc taken btb_hit) (λ b'. train n b' pc taken btb_hit)
      (resolve_lem b pc c taken btb_hit v r)
      (λ b' h. train_lem n b' pc (next_cnt taken btb_hit c) taken btb_hit h.0 h.1)

steps_settled :
    (n : ℕ) (taken btb_hit : Bool) (c : ℕ)
    → taken_of c ≡ taken
    → taken_of (steps n taken btb_hit c) ≡ taken
steps_settled zero taken btb_hit c e = e
steps_settled (suc n) taken btb_hit c e =
    steps_settled n taken btb_hit (next_cnt taken btb_hit c) (ground arith)

two_steps :
    (taken btb_hit : Bool) (c : ℕ)
    → c ≤ 3
    → taken_of (next_cnt taken btb_hit (next_cnt taken btb_hit c)) ≡ taken
two_steps taken btb_hit c h = ground arith

-- Two branches at one address that went the same way suffice: from any valid state, after two or
-- more of them the predictor predicts that direction at that address.
pub train-predict :
    (n : ℕ) (b : Bimodal) (pc : ℕ) (taken btb_hit : Bool)
    → IsValid b
    → Returns
        (train (suc (suc n)) b pc taken btb_hit)
        (λ b'. Returns (predict b' pc) (λ x. x.0.taken ≡ taken))
train-predict n b pc taken btb_hit v = start (reads b pc v)
  where
    start :
        (c : ℕ) × Reads b pc c
        → Returns
            (train (suc (suc n)) b pc taken btb_hit)
            (λ b'. Returns (predict b' pc) (λ x. x.0.taken ≡ taken))
    start (c, r) =
        Returns-map _ _ (train (suc (suc n)) b pc taken btb_hit)
          (train_lem (suc (suc n)) b pc c taken btb_hit v r)
          λ b' h.
            rw (predict_of_Reads b' pc _ h.1)
              (steps_settled n taken btb_hit _ (two_steps taken btb_hit c r.1))
