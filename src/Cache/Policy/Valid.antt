-- ===== src/Cache/Policy/Valid.antt =====
-- Replacement policies that fit a cache: their hooks do not fault, and they leave the tag of a
-- line, its valid bit and its words alone.
use ysyx_np_sim.Prelude.{
  ℕ, ◌+◌, ◌%◌, ◌≤◌, ◌<◌, ◌≡◌, ◌≢◌, refl, true, Bool-cases, inl, inr, List, [], ◌∷◌, arith, ltb,
  ◌==◌, lt→ltb, length, get_elem?_of_lt, set_at_of_lt, length-set, Returns, Returns-map,
  Returns-bind,
}
use native.Mathlib.Nat.{mod-lt}
use ysyx_np_sim.Cache.Line.{Line}
use ysyx_np_sim.Cache.Policy.{
  Policy, lru, srrip, round_robin, plru, supported, min_from, max_from, lru_victim, srrip_victim,
  way_in, get_victim, on_fill, on_hit, victim_way, victim_bits, update_bits,
}

-- A policy of a cache of `sets` sets of `assoc` lines.
unfoldable pub Fits : ℕ → ℕ → Policy → Type 0
Fits sets assoc lru = Unit
Fits sets assoc srrip = Unit
Fits sets assoc (round_robin a ptr) = (a ≡ assoc) × (length ptr ≡ sets)
Fits sets assoc (plru a bits) = (a ≡ assoc) × (length bits ≡ sets) × (supported a ≡ true)

-- A line with another stamp.
abbrev pub Same : Line → Line → Type 0
Same l k = (k.tag ≡ l.tag) × (k.valid ≡ l.valid) × (k.words ≡ l.words)

min_from-lt :
    (n best stamp i : ℕ) (ls : List Line)
    → best < n
    → i + length ls ≤ n
    → min_from best stamp i ls < n
unfolding min_from
min_from-lt n best stamp i [] h k = h
min_from-lt n best stamp i (l ∷ ls) h k = elim (Bool-cases (ltb l.stamp stamp)) [
  | inl e ↦ rw e (min_from-lt n i l.stamp (i + 1) ls (omega arith) (omega arith))
  | inr e ↦ rw e (min_from-lt n best stamp (i + 1) ls h (omega arith))
]

max_from-lt :
    (n best stamp i : ℕ) (ls : List Line)
    → best < n
    → i + length ls ≤ n
    → max_from best stamp i ls < n
unfolding max_from
max_from-lt n best stamp i [] h k = h
max_from-lt n best stamp i (l ∷ ls) h k = elim (Bool-cases (ltb stamp l.stamp)) [
  | inl e ↦ rw e (max_from-lt n i l.stamp (i + 1) ls (omega arith) (omega arith))
  | inr e ↦ rw e (max_from-lt n best stamp (i + 1) ls h (omega arith))
]

way_in-lt : (lines : List Line) (i : ℕ) → i < length lines → Returns (way_in lines i) (λ w. w ≡ i)
unfolding way_in
way_in-lt lines i h = let (l, e) = get_elem?_of_lt lines i h in rw e refl

victim_bits-lt : (a b : ℕ) → supported a ≡ true → a ≢ 1 → victim_bits a b < a
unfolding supported
victim_bits-lt a b h k = ground arith

victim_way-lt :
    (a si : ℕ) (bits : List ℕ)
    → supported a ≡ true
    → si < length bits
    → Returns (victim_way a bits si) (λ w. w < a)
unfolding victim_way
victim_way-lt a si bits h k =
    let (b, e) = get_elem?_of_lt bits si k in
    elim (Bool-cases (a == 1)) [
      | inl one ↦ rw (h, e, one) (ground arith)
      | inr more ↦ rw (h, e, more) (victim_bits-lt a b h (ground arith))
    ]

pub get_victim-lt :
    (sets assoc si : ℕ) (p : Policy) (lines : List Line)
    → Fits sets assoc p
    → si < sets
    → 0 < assoc
    → length lines ≡ assoc
    → Returns (get_victim p si lines) (λ w. w < assoc)
unfolding get_victim Fits lru_victim srrip_victim
get_victim-lt sets assoc si lru [] v h k e = absurd (omega arith)
get_victim-lt sets assoc si lru (l ∷ ls) v h k e = min_from-lt assoc 0 l.stamp 1 ls k (omega arith)
get_victim-lt sets assoc si srrip [] v h k e = absurd (omega arith)
get_victim-lt sets assoc si srrip (l ∷ ls) v h k e =
    max_from-lt assoc 0 l.stamp 1 ls k (omega arith)
get_victim-lt sets assoc si (round_robin a ptr) lines v h k e =
    let (n, found) = get_elem?_of_lt ptr si (omega arith) in
    let small : n % a < a = mod-lt n (omega arith) in
    rw found (
      Returns-map _ _ (way_in lines (n % a)) (way_in-lt lines (n % a) (omega arith))
        (λ w q. omega arith))
get_victim-lt sets assoc si (plru a bits) lines v h k e =
    rw (lt→ltb 0 (length lines) (omega arith)) (
      Returns-bind (λ w. w < a) _ (victim_way a bits si) _
        (victim_way-lt a si bits v.2 (omega arith))
        (λ w q.
          Returns-map _ _ (way_in lines w) (way_in-lt lines w (omega arith)) (λ x r. omega arith)))

update_bits-length :
    (a si w : ℕ) (bits : List ℕ)
    → supported a ≡ true
    → si < length bits
    → Returns (update_bits a bits si w) (λ bs. length bs ≡ length bits)
unfolding update_bits
update_bits-length a si w bits h k =
    let (b, e) = get_elem?_of_lt bits si k in
    rw (h, e, set_at_of_lt bits si _ k) (length-set bits si _)

pub on_hit-Fits :
    (sets assoc si w now : ℕ) (p : Policy) (l : Line)
    → Fits sets assoc p
    → si < sets
    → Returns (on_hit p si w l now) (λ r. Fits sets assoc r.0 × Same l r.1)
unfolding on_hit Fits
on_hit-Fits sets assoc si w now lru l v h = (tt, (refl, refl, refl))
on_hit-Fits sets assoc si w now srrip l v h = (tt, (refl, refl, refl))
on_hit-Fits sets assoc si w now (round_robin a ptr) l v h = (v, (refl, refl, refl))
on_hit-Fits sets assoc si w now (plru a bits) l v h =
    Returns-bind (λ bs. length bs ≡ length bits) _ (update_bits a bits si w) _
      (update_bits-length a si w bits v.2 (omega arith))
      (λ bs q. ((v.0, omega arith, v.2), (refl, refl, refl)))

pub on_fill-Fits :
    (sets assoc si w now : ℕ) (p : Policy) (l : Line)
    → Fits sets assoc p
    → si < sets
    → Returns (on_fill p si w l now) (λ r. Fits sets assoc r.0 × Same l r.1)
unfolding on_fill Fits
on_fill-Fits sets assoc si w now lru l v h = (tt, (refl, refl, refl))
on_fill-Fits sets assoc si w now srrip l v h = (tt, (refl, refl, refl))
on_fill-Fits sets assoc si w now (round_robin a ptr) l v h =
    let (n, e) = get_elem?_of_lt ptr si (omega arith) in
    rw (e, set_at_of_lt ptr si ((n + 1) % a) (omega arith))
      ((v.0, omega (arith, length-set ptr si ((n + 1) % a))), (refl, refl, refl))
on_fill-Fits sets assoc si w now (plru a bits) l v h =
    Returns-bind (λ bs. length bs ≡ length bits) _ (update_bits a bits si w) _
      (update_bits-length a si w bits v.2 (omega arith))
      (λ bs q. ((v.0, omega arith, v.2), (refl, refl, refl)))
