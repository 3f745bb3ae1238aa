-- ===== src/Cache/Base.antt =====
-- cacheSim/CacheBase.hh and CacheBase.cc: `CacheBase`. `none` is a failed assertion or an access
-- out of range; `curr_tick()` is the argument `now`. A pointer to a line is the number of its set
-- and of its way. The Makefile sets `ACTIVE_MODE`, so that a refill carries no words.

pub mod Shape
pub mod Victim
pub mod Access
pub mod Refill
pub mod Tests
use ysyx_np_sim.Prelude.{
  ℕ, zero, suc, ◌+◌, ◌-◌, ◌*◌, ◌/◌, ◌%◌, ◌^◌, Bool, true, false, ◌&&◌, not, Option, none, some,
  List, [], ◌∷◌, ◌>>=◌, ◌>>◌, assert, if◌then◌else◌, ltb, ◌==◌, get_elem?, set_at, replicate,
  bit_and, bit_or, shr, incr,
}
use ysyx_np_sim.Cache.Line.{Line, invalidate, activate}
use ysyx_np_sim.Cache.Line
use ysyx_np_sim.Cache.Policy.{Policy, plru_name, make_repl_policy, get_victim, on_hit, on_fill}
use ysyx_np_sim.Cache.Prefetch.{Prefetcher, set_block_size}

pub record Cache : Type 0 where
  pub line_bytes : ℕ
  pub offset_bits : ℕ
  pub sets : ℕ
  pub assoc : ℕ
  pub cache_id : ℕ
  pub victim_way_lag : Bool
  pub lag_set_idx : ℕ
  pub lag_set_valid : Bool
  pub sets_arr : List (List Line)
  pub prefetcher : Option Prefetcher
  pub repl_policy : Policy
  pub accesses : ℕ
  pub hits : ℕ
  pub misses : ℕ

pub record Ref : Type 0 where
  pub set_idx : ℕ
  pub way : ℕ

is_power_of_2 : ℕ → Bool
is_power_of_2 x = not (x == 0) && bit_and x (x - 1) == 0

-- `std::bit_width(x) - 1` of a word of `n + 1` bits.
log2_from : ℕ → ℕ → ℕ
log2_from zero x = 0
log2_from (suc n) x = let rest = log2_from n (x / 2) in if ltb x 2 then 0 else rest + 1

pub floor_log2 : ℕ → Option ℕ
unfolding log2_from
floor_log2 x = do assert (ltb 0 x); some (log2_from 63 x)

size_prefetcher : Option Prefetcher → ℕ → Option Prefetcher
size_prefetcher none size = none
size_prefetcher (some p) size = some (set_block_size p size)

policy_or_plru : Option Policy → ℕ → ℕ → Option Policy
policy_or_plru none assoc sets = make_repl_policy plru_name assoc sets
policy_or_plru (some p) assoc sets = some p

unfoldable pub init :
    (size_bytes line_bytes assoc : ℕ) → Option Prefetcher → ℕ → Option Policy → Bool → Option Cache
unfolding is_power_of_2 size_prefetcher policy_or_plru floor_log2
init size_bytes line_bytes assoc prefetcher cache_id repl_policy lag = do
  assert (ltb 0 (line_bytes * assoc))
  let sets = size_bytes / (line_bytes * assoc)
  offset_bits ← floor_log2 line_bytes
  assert (size_bytes % (line_bytes * assoc) == 0)
  assert (ltb 1 sets && is_power_of_2 sets)
  assert (is_power_of_2 line_bytes)
  policy ← policy_or_plru repl_policy assoc sets
  some (record {
    line_bytes = line_bytes;
    offset_bits = offset_bits;
    sets = sets;
    assoc = assoc;
    cache_id = cache_id;
    victim_way_lag = lag;
    lag_set_idx = 0;
    lag_set_valid = false;
    sets_arr = replicate sets (replicate assoc (Line.init line_bytes));
    prefetcher = size_prefetcher prefetcher line_bytes;
    repl_policy = policy;
    accesses = 0;
    hits = 0;
    misses = 0;
  })

-- `~(lineBytes_ - 1)` is a `size_t`.
abbrev pub block_addr_of : Cache → ℕ → ℕ
block_addr_of c addr = bit_and addr (2 ^ 64 - 1 - (c.line_bytes - 1))

abbrev pub tag_of : Cache → ℕ → ℕ
tag_of c addr = block_addr_of c addr

abbrev pub set_index_of : Cache → ℕ → ℕ
set_index_of c addr = bit_and (shr addr c.offset_bits) (c.sets - 1)

abbrev pub offset_of : Cache → ℕ → ℕ
offset_of c addr = bit_and addr (c.line_bytes - 1)

-- `strbExtend`
pub strb_extend : ℕ → ℕ
strb_extend strb =
    let m0 = if not (bit_and strb 0x1 == 0) then 0x000000ff else 0 in
    let m1 = if not (bit_and strb 0x2 == 0) then 0x0000ff00 else 0 in
    let m2 = if not (bit_and strb 0x4 == 0) then 0x00ff0000 else 0 in
    let m3 = if not (bit_and strb 0x8 == 0) then 0xff000000 else 0 in
    bit_or (bit_or (bit_or m0 m1) m2) m3

-- `(~mask & old) | (mask & new)`
pub merge : ℕ → ℕ → ℕ → ℕ
merge mask old new = bit_or (bit_and (2 ^ 32 - 1 - mask) old) (bit_and mask new)

-- `l.isValid() && l.getTag() == tag`
abbrev pub holds : ℕ → Line → Bool
holds tag l = l.valid && l.tag == tag

-- The first way with the tag.
unfoldable pub find_way : ℕ → List Line → Option ℕ
find_way tag [] = none
find_way tag (l ∷ ls) =
    let rest = find_way tag ls in if holds tag l then some 0 else (rest >>= λ i. some (suc i))

pub first_invalid : List Line → Option ℕ
first_invalid [] = none
first_invalid (l ∷ ls) =
    let rest = first_invalid ls in if l.valid then (rest >>= λ i. some (suc i)) else some 0

abbrev pub or_victim : Option ℕ → Option ℕ → Option ℕ
or_victim none victim = victim
or_victim (some i) victim = some i

-- The first invalid way of a set, or else the way that the policy gives up.
pub select_victim : Cache → ℕ → List Line → Option ℕ
unfolding first_invalid
select_victim c si lines = or_victim (first_invalid lines) (get_victim c.repl_policy si lines)

-- The set that the victim's way is read from.
pub victim_set : Cache → ℕ → ℕ
victim_set c si = if not c.victim_way_lag then si else if c.lag_set_valid then c.lag_set_idx else si

pub miss_victim_way : Cache → ℕ → Option ℕ
unfolding select_victim victim_set
miss_victim_way c si = do
  lines ← get_elem? c.sets_arr (victim_set c si)
  select_victim c (victim_set c si) lines

-- Latches the set index for the next miss.
pub latch : Cache → ℕ → Cache
latch c si = record c {
  lag_set_idx = if c.victim_way_lag then si else c.lag_set_idx;
  lag_set_valid = if c.victim_way_lag then true else c.lag_set_valid;
}

pub line_at : Cache → Ref → Option Line
line_at c r = do lines ← get_elem? c.sets_arr r.set_idx; get_elem? lines r.way

pub put_line : Cache → Ref → Line → Option Cache
put_line c r l = do
  lines ← get_elem? c.sets_arr r.set_idx
  lines' ← set_at lines r.way l
  sets_arr ← set_at c.sets_arr r.set_idx lines'
  some (record c { sets_arr = sets_arr })

-- A hit clears the mark of a prefetched line and counts it.
pub count_useful : Option Prefetcher → Line → Option Prefetcher × Line
count_useful none l = (none, l)
count_useful (some p) l =
    if l.is_prefetched
    then (
      some (record p { prefetch_useful = incr p.prefetch_useful }),
      record l { is_prefetched = false },
    )
    else (some p, l)

pub access_hit : Cache → Ref → Line → ℕ → Option Cache
unfolding latch count_useful put_line
access_hit c r l now = do
  (policy, l1) ← on_hit c.repl_policy r.set_idx r.way l now
  let (pf, l2) = count_useful c.prefetcher l1
  let c1 = latch c r.set_idx
  put_line (record c1 { repl_policy = policy; hits = incr c1.hits; prefetcher = pf }) r l2

-- A miss invalidates its victim, whose dirty bit and words stay for the caller.
pub access_miss : Cache → ℕ → Option (Ref × Cache)
unfolding miss_victim_way latch put_line line_at
access_miss c si = do
  assert (ltb 0 c.assoc)
  w ← miss_victim_way c si
  let r : Ref = record { set_idx = si; way = w % c.assoc }
  l ← line_at c r
  let c1 = latch c si
  c2 ← put_line (record c1 { misses = incr c1.misses }) r (invalidate l)
  some (r, c2)

pub access_at : Cache → ℕ → List Line → Option ℕ → ℕ → Option (Ref × Cache)
unfolding access_hit access_miss
access_at c si lines none now = access_miss c si
access_at c si lines (some i) now = do
  l ← get_elem? lines i
  c' ← access_hit c (record { set_idx = si; way = i }) l now
  some (record { set_idx = si; way = i }, c')

pub access : Cache → ℕ → ℕ → Option (Ref × Cache)
unfolding find_way access_at
access c addr now = do
  let c1 = record c { accesses = incr c.accesses }
  lines ← get_elem? c1.sets_arr (set_index_of c1 addr)
  access_at c1 (set_index_of c1 addr) lines (find_way (tag_of c1 addr) lines) now

unfoldable pub is_found : Option ℕ → Bool
is_found none = false
is_found (some i) = true

pub probe : Cache → ℕ → Option Bool
unfolding find_way is_found
probe c addr = do
  lines ← get_elem? c.sets_arr (set_index_of c addr)
  some (is_found (find_way (tag_of c addr) lines))

-- `setVecData` does nothing in this build.
pub handle_fill : Cache → Ref → ℕ → ℕ → Option Cache
unfolding line_at put_line
handle_fill c r addr now = do
  assert (r.set_idx == set_index_of c addr)
  l ← line_at c r
  let l1 = record (activate l now) { tag = tag_of c addr }
  (policy, l2) ← on_fill c.repl_policy r.set_idx r.way l1 now
  put_line (record c { repl_policy = policy }) r l2
