-- ===== src/Cache/Policy/Plru.antt =====
-- The PLRU bits, against the ways used last.
use ysyx_np_sim.Prelude.{
  ℕ, ◌<◌, ◌≡◌, ◌≢◌, refl, Bool, true, not, ◌&&◌, some, List, ◌>>=◌, arith, ◌==◌, ltb, length,
  length-set, get_elem?, set, get_elem?-lt, get_elem?-set_self, set_at_of_lt, Returns, all_below,
  all_below-lt,
}
use ysyx_np_sim.Cache.Policy.{supported, victim_bits, victim_way, touched_bits, update_bits}

-- The victim after ways `u` and `w` were used, the latter last.
abbrev victim_after : ℕ → ℕ → ℕ → ℕ
victim_after bits u w = victim_bits 4 (touched_bits 4 (touched_bits 4 bits u) w)

abbrev fresh_victim : ℕ → ℕ → ℕ → Bool
fresh_victim bits u w = let v = victim_after bits u w in ltb v 4 && (not (v == u) && not (v == w))

table : all_below 256 (λ bits. all_below 4 (λ u. all_below 4 (λ w. fresh_victim bits u w))) ≡ true
unfolding all_below
table = refl

fresh :
    (v u w : ℕ) → (ltb v 4 && (not (v == u) && not (v == w))) ≡ true → (v < 4) × (v ≢ u) × (v ≢ w)
fresh v u w h = ground arith

victim_after_lem :
    (bits u w : ℕ)
    → bits < 256
    → u < 4
    → w < 4
    → (victim_after bits u w < 4) × (victim_after bits u w ≢ u) × (victim_after bits u w ≢ w)
victim_after_lem bits u w hb hu hw = fresh _ u w (
    all_below-lt 4 (λ w. fresh_victim bits u w) w
      (all_below-lt 4 (λ u. all_below 4 (λ w. fresh_victim bits u w)) u
        (all_below-lt 256 _ bits table hb) hu)
      hw)

update_bits_lem :
    (bits : List ℕ) (si w b : ℕ)
    → si < length bits
    → get_elem? bits si ≡ some b
    → update_bits 4 bits si w ≡ some (set bits si (touched_bits 4 b w))
unfolding update_bits supported
update_bits_lem bits si w b h e = rw (e, set_at_of_lt bits si (touched_bits 4 b w) h) refl

-- Of four ways the victim is never one of the two used last in the set: whatever the set's bits
-- were, after `u` and then `w` were used the bits point at a third way, and no access is out of range.
pub victim-update_bits :
    (bits : List ℕ) (si u w b : ℕ)
    → get_elem? bits si ≡ some b
    → b < 256
    → u < 4
    → w < 4
    → Returns
        (do
          bits1 ← update_bits 4 bits si u
          bits2 ← update_bits 4 bits1 si w
          victim_way 4 bits2 si)
        (λ v. (v < 4) × (v ≢ u) × (v ≢ w))
unfolding victim_way supported
victim-update_bits bits si u w b e hb hu hw =
    rw
      (
        update_bits_lem bits si u b within e,
        update_bits_lem bits1 si w b1 (rw (length-set bits si b1) within)
            (get_elem?-set_self bits si b1 within),
        get_elem?-set_self bits1 si (touched_bits 4 b1 w) (rw (length-set bits si b1) within),
      )
      (victim_after_lem b u w hb hu hw)
  where
    within : si < length bits
    within = get_elem?-lt bits si e

    b1 : ℕ
    b1 = touched_bits 4 b u

    bits1 : List ℕ
    bits1 = set bits si b1
