-- ===== src/Cache/Policy/Order.antt =====
-- The victims of LRU and of round robin.
use ysyx_np_sim.Prelude.{
  ℕ, zero, suc, ◌+◌, ◌%◌, ◌≤◌, ◌<◌, ◌≡◌, refl, ap, ◌∙◌, false, Bool-cases, inl, inr, Option, some,
  List, [], ◌∷◌, ◌>>=◌, arith, ltb, ltb→lt, length, get_elem?, set, get_elem?-set_self,
  get_elem?-lt, get_elem?_of_lt, set_at_of_lt, Returns, Returns-map, All,
}
use native.Mathlib.Nat.{mod-lt, mod-add-mod}
use ysyx_np_sim.Cache.Line.{Line}
use ysyx_np_sim.Cache.Policy.{
  Policy, lru, round_robin, min_from, lru_victim, way_in, get_victim, on_fill,
}

-- A line that no line of the set is older than.
abbrev pub Oldest : List Line → Line → Type 0
Oldest lines l = All (λ k. l.stamp ≤ k.stamp) lines

min_from_lem :
    (whole ls : List Line) (best stamp i : ℕ) (l : Line)
    → get_elem? whole best ≡ some l
    → l.stamp ≡ stamp
    → ((j : ℕ) → get_elem? whole (i + j) ≡ get_elem? ls j)
    → Returns (get_elem? whole (min_from best stamp i ls)) (λ k. (k.stamp ≤ stamp) × Oldest ls k)
unfolding min_from
min_from_lem whole [] best stamp i l e s suffix = rw e (omega arith, tt)
min_from_lem whole (x ∷ ls) best stamp i l e s suffix = elim (Bool-cases (ltb x.stamp stamp)) [
  | inl less ↦ rw less (
      Returns-map _ _ (get_elem? whole (min_from i x.stamp (i + 1) ls))
        (min_from_lem whole ls i x.stamp (i + 1) x first refl rest)
        (λ k h. (omega (arith, h.0, ltb→lt x.stamp stamp less), (h.0, h.1))))
  | inr more ↦ rw more (
      Returns-map _ _ (get_elem? whole (min_from best stamp (i + 1) ls))
        (min_from_lem whole ls best stamp (i + 1) l e s rest)
        (λ k h. (h.0, (at_most k.stamp more h.0, h.1))))
]
  where
    at_most : (n : ℕ) → ltb x.stamp stamp ≡ false → n ≤ stamp → n ≤ x.stamp
    at_most n more h = ground arith

    first : get_elem? whole i ≡ some x
    first = let z : i + 0 ≡ i = omega arith in rw z at (suffix 0)

    rest : (j : ℕ) → get_elem? whole (i + 1 + j) ≡ get_elem? ls j
    rest j = let z : i + 1 + j ≡ i + suc j = omega arith in rw z (suffix (suc j))

-- The LRU victim of a set that is not empty is one of its ways, and no line of the set has an older
-- stamp.
pub lru-get_victim :
    (si : ℕ) (lines : List Line)
    → 0 < length lines
    → Returns (get_victim lru si lines) (λ w. Returns (get_elem? lines w) (Oldest lines))
unfolding get_victim lru_victim
lru-get_victim si [] h = absurd (omega arith)
lru-get_victim si (l ∷ ls) h =
    Returns-map _ _ (get_elem? (l ∷ ls) (min_from 0 l.stamp 1 ls))
      (min_from_lem (l ∷ ls) ls 0 l.stamp 1 l refl refl shifted) (λ k v. (v.0, v.1))
  where
    shifted : (j : ℕ) → get_elem? (l ∷ ls) (1 + j) ≡ get_elem? ls j
    shifted j = let z : 1 + j ≡ suc j = omega arith in rw z refl

-- Fills of a set, each at the way that the policy chooses.
unfoldable pub fills : ℕ → ℕ → List Line → Policy → Option Policy
fills zero si lines p = some p
fills (suc n) si lines p = do
  way ← get_victim p si lines
  l ← get_elem? lines way
  (p', l') ← on_fill p si way l 0
  fills n si lines p'

-- Round robin goes through the ways in order: if the pointer of a set of `assoc` ways stands at
-- `start`, the victim after `n` fills is way `(start + n) % assoc`.
pub round_robin-fills :
    (n si assoc start : ℕ) (lines : List Line) (ptr : List ℕ)
    → length lines ≡ assoc
    → start < assoc
    → get_elem? ptr si ≡ some start
    → Returns
        (fills n si lines (round_robin assoc ptr))
        (λ p. get_victim p si lines ≡ some ((start + n) % assoc))
unfolding fills get_victim on_fill way_in
round_robin-fills zero si assoc start lines ptr sized h e =
    let (l, found) =
      get_elem?_of_lt lines (start % assoc) (rw sized (mod-lt start (omega arith))) in
    let z : start + 0 ≡ start = omega arith in rw (e, found, z) refl
round_robin-fills (suc n) si assoc start lines ptr sized h e =
    let (l, found) =
      get_elem?_of_lt lines (start % assoc) (rw sized (mod-lt start (omega arith))) in
    rw (e, found, found, set_at_of_lt ptr si ((start + 1) % assoc) (get_elem?-lt ptr si e))
      (Returns-map _ _ (fills n si lines (round_robin assoc (set ptr si ((start + 1) % assoc))))
        (round_robin-fills n si assoc ((start + 1) % assoc) lines (set ptr si ((start + 1) % assoc))
          sized (mod-lt (start + 1) (omega arith))
          (get_elem?-set_self ptr si ((start + 1) % assoc) (get_elem?-lt ptr si e)))
        (λ p v. v ∙ ap some (shift n)))
  where
    shift : (n : ℕ) → ((start + 1) % assoc + n) % assoc ≡ (start + suc n) % assoc
    shift n = mod-add-mod (start + 1) assoc n ∙ ap (λ (m : ℕ). m % assoc) (omega arith)
