-- ===== src/Cache/Base/Victim.antt =====
-- The victim of a miss is a way of the cache, and what a hit does to its line.
use ysyx_np_sim.Prelude.{
  ℕ, suc, ◌<◌, ◌≡◌, refl, Bool-cases, inl, inr, ◌⊎◌, Option, none, some, List, [], ◌∷◌, ◌>>=◌,
  arith, length, Returns,
}
use ysyx_np_sim.Cache.Line.{Line}
use ysyx_np_sim.Cache.Policy.Valid.{Same, get_victim-lt}
use ysyx_np_sim.Cache.Prefetch.{Prefetcher}
use ysyx_np_sim.Cache.Base.{
  Cache, first_invalid, select_victim, victim_set, miss_victim_way, latch, count_useful,
}
use ysyx_np_sim.Cache.Base.Shape.{IsValid, lines_of}

first_invalid-lt :
    (ls : List Line)
    → (first_invalid ls ≡ none) ⊎ ((i : ℕ) × (first_invalid ls ≡ some i) × (i < length ls))
unfolding first_invalid
first_invalid-lt [] = inl refl
first_invalid-lt (l ∷ ls) = elim (Bool-cases l.valid) [
  | inl used ↦ rw used (later ls (first_invalid-lt ls))
  | inr free ↦ rw free (inr (0, refl, omega arith))
]
  where
    later :
        (ls : List Line)
        → (first_invalid ls ≡ none) ⊎ ((i : ℕ) × (first_invalid ls ≡ some i) × (i < length ls))
        → ((first_invalid ls >>= λ i. some (suc i)) ≡ none)
          ⊎ ((i : ℕ) × ((first_invalid ls >>= λ i. some (suc i)) ≡ some i) × (i < suc (length ls)))
    later ls (inl e) = rw e (inl refl)
    later ls (inr (i, e, h)) = rw e (inr (suc i, refl, omega arith))

select_victim-lt :
    (c : Cache) (si : ℕ) (lines : List Line)
    → IsValid c
    → si < c.sets
    → length lines ≡ c.assoc
    → Returns (select_victim c si lines) (λ w. w < c.assoc)
unfolding select_victim
select_victim-lt c si lines v h e = elim (first_invalid-lt lines) [
  | inl full ↦ rw full (get_victim-lt c.sets c.assoc si c.repl_policy lines v.fits h v.assoc_pos e)
  | inr (i, found, k) ↦ rw found (omega arith)
]

victim_set-lt : (c : Cache) (si : ℕ) → IsValid c → si < c.sets → victim_set c si < c.sets
unfolding victim_set
victim_set-lt c si v h = elim (Bool-cases c.victim_way_lag) [
  | inr direct ↦ rw direct h
  | inl lag ↦
      rw lag (elim (Bool-cases c.lag_set_valid) [ inl on ↦ rw on v.lag_lt | inr off ↦ rw off h ])
]

pub miss_victim_way-lt :
    (c : Cache) (si : ℕ)
    → IsValid c
    → si < c.sets
    → Returns (miss_victim_way c si) (λ w. w < c.assoc)
unfolding miss_victim_way
miss_victim_way-lt c si v h =
    let latched = victim_set-lt c si v h in
    let (lines, e, sized) = lines_of c (victim_set c si) v latched in
    rw e (select_victim-lt c (victim_set c si) lines v latched sized)

pub latch-lt : (c : Cache) (si : ℕ) → IsValid c → si < c.sets → (latch c si).lag_set_idx < c.sets
unfolding latch
latch-lt c si v h = elim (Bool-cases c.victim_way_lag) [
  | inl lag ↦ rw lag h
  | inr direct ↦ rw direct v.lag_lt
]

pub count_useful-Same :
    (pf : Option Prefetcher) (l k : Line) → Same l k → Same l (count_useful pf k).1
unfolding count_useful
count_useful-Same none l k s = s
count_useful-Same (some pf) l k s = elim (Bool-cases k.is_prefetched) [
  | inl e ↦ rw e s
  | inr e ↦ rw e s
]
