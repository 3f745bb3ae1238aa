-- ===== src/Cache/Policy.antt =====
-- cacheSim/ReplPolicy.hh and ReplPolicy.cc. A pointer into a set is the number of its way; `none`
-- is a failed assertion or an access out of range. A hook returns the policy and the line, which
-- it may restamp.
pub mod Plru
pub mod Order
pub mod Valid
mod Tests
use ysyx_np_sim.Prelude.{
  ℕ, suc, ◌+◌, ◌*◌, ◌%◌, Bool, true, false, ◌||◌, Option, none, some, List, [], ◌∷◌, ◌>>=◌, ◌>>◌,
  assert, if◌then◌else◌, ltb, ◌==◌, not, length, bit_and, bit_or, shr, get_elem?, set_at, replicate,
}
use ysyx_np_sim.Cache.Line.{Line}

-- The subclasses of `ReplPolicy`.
pub data Policy : Type 0 where
  lru srrip : Policy
  round_robin : (assoc : ℕ) (ptr : List ℕ) → Policy
  plru : (assoc : ℕ) (bits : List ℕ) → Policy

-- `std::min_element` by stamp: the first of the smallest.
pub min_from : ℕ → ℕ → ℕ → List Line → ℕ
min_from best stamp i [] = best
min_from best stamp i (l ∷ ls) =
    min_from (if ltb l.stamp stamp then i else best) (if ltb l.stamp stamp then l.stamp else stamp)
      (i + 1) ls

-- `std::max_element` by stamp: the first of the largest.
pub max_from : ℕ → ℕ → ℕ → List Line → ℕ
max_from best stamp i [] = best
max_from best stamp i (l ∷ ls) =
    max_from (if ltb stamp l.stamp then i else best) (if ltb stamp l.stamp then l.stamp else stamp)
      (i + 1) ls

lru_victim : List Line → Option ℕ
unfolding min_from
lru_victim [] = none
lru_victim (l ∷ ls) = some (min_from 0 l.stamp 1 ls)

srrip_victim : List Line → Option ℕ
unfolding max_from
srrip_victim [] = none
srrip_victim (l ∷ ls) = some (max_from 0 l.stamp 1 ls)

-- The assertion of both PLRU functions.
unfoldable pub supported : ℕ → Bool
supported assoc = assoc == 1 || assoc == 2 || assoc == 4

-- The way that the bits point at, `victim_way`.
abbrev victim_bits : ℕ → ℕ → ℕ
victim_bits assoc bits =
    let b0 = not (bit_and bits 0x1 == 0) in
    let b1 = not (bit_and bits 0x2 == 0) in
    let b2 = not (bit_and bits 0x4 == 0) in
    if assoc == 2
    then (if b0 then 0 else 1)
    else if b0
    then (if b1 then 0 else 1)
    else (if b2 then 2 else 3)

pub victim_way : ℕ → List ℕ → ℕ → Option ℕ
unfolding supported
victim_way assoc bits set_idx = do
  assert (supported assoc)
  let read = get_elem? bits set_idx
  if assoc == 1 then some 0 else (read >>= λ b. some (victim_bits assoc b))

-- The new bits of a set whose way was used.
abbrev touched_bits : ℕ → ℕ → ℕ → ℕ
touched_bits assoc bits way_idx =
    let w0 = bit_and way_idx 0x1 in
    let w1 = bit_and (shr way_idx 1) 0x1 in
    let b1 = bit_and (shr bits 1) 0x1 in
    let b2 = bit_and (shr bits 2) 0x1 in
    let new_b0 = w1 in
    let new_b1 = if not (w1 == 0) then b1 else w0 in
    let new_b2 = if not (w1 == 0) then w0 else b2 in
    if assoc == 1
    then 0
    else if assoc == 2
    then w0
    else bit_or (bit_or new_b0 (new_b1 * 2)) (new_b2 * 4)

pub update_bits : ℕ → List ℕ → ℕ → ℕ → Option (List ℕ)
unfolding supported
update_bits assoc bits set_idx way_idx = do
  assert (supported assoc)
  b ← get_elem? bits set_idx
  set_at bits set_idx (touched_bits assoc b way_idx)

way_in : List Line → ℕ → Option ℕ
way_in lines idx = do l ← get_elem? lines idx; some idx

pub get_victim : Policy → ℕ → List Line → Option ℕ
unfolding lru_victim srrip_victim way_in
get_victim lru set_idx lines = lru_victim lines
get_victim srrip set_idx lines = srrip_victim lines
get_victim (round_robin assoc ptr) set_idx lines = do
  p ← get_elem? ptr set_idx
  way_in lines (p % assoc)
get_victim (plru assoc bits) set_idx lines = do
  assert (ltb 0 (length lines))
  way ← victim_way assoc bits set_idx
  way_in lines way

pub on_hit : Policy → ℕ → ℕ → Line → ℕ → Option (Policy × Line)
on_hit lru set_idx way_idx line now = some (lru, record line { stamp = now })
on_hit srrip set_idx way_idx line now = some (srrip, record line { stamp = 0 })
on_hit (round_robin assoc ptr) set_idx way_idx line now = some (round_robin assoc ptr, line)
on_hit (plru assoc bits) set_idx way_idx line now = do
  bits' ← update_bits assoc bits set_idx way_idx
  some (plru assoc bits', line)

pub on_fill : Policy → ℕ → ℕ → Line → ℕ → Option (Policy × Line)
on_fill lru set_idx way_idx line now = some (lru, record line { stamp = now })
on_fill srrip set_idx way_idx line now = some (srrip, record line { stamp = 2 })
on_fill (round_robin assoc ptr) set_idx way_idx line now = do
  p ← get_elem? ptr set_idx
  ptr' ← set_at ptr set_idx ((p + 1) % assoc)
  some (round_robin assoc ptr', line)
on_fill (plru assoc bits) set_idx way_idx line now = do
  bits' ← update_bits assoc bits set_idx way_idx
  some (plru assoc bits', line)

-- `make_repl_policy`, by the names that it knows.
pub data PolicyName : Type 0 where
  plru_name lru_name srrip_name rr_name other_name : PolicyName

pub make_repl_policy : PolicyName → ℕ → ℕ → Option Policy
make_repl_policy plru_name assoc num_sets = some (plru assoc (replicate num_sets 0))
make_repl_policy lru_name assoc num_sets = some lru
make_repl_policy srrip_name assoc num_sets = some srrip
make_repl_policy rr_name assoc num_sets = some (round_robin assoc (replicate num_sets 0))
make_repl_policy other_name assoc num_sets = none
