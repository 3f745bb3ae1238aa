-- ===== src/Cache/PipeCache.antt =====
-- cacheSim/CacheBase.hh and CacheBase.cc: `PipeCache`, all but its `update_impl`. `none` is a
-- failed assertion, a null pointer or an access out of range; `curr_tick()` is the argument `now`.
pub mod Update
pub mod Pollute
pub mod Steps
mod Tests
use ysyx_np_sim.Prelude.{
  ℕ, shr, zero, suc, ◌+◌, ◌*◌, ◌/◌, min, Bool, true, false, ◌&&◌, not, Option, none, some, List, [],
  ◌∷◌, ◌>>=◌, ◌>>◌, assert, if◌then◌else◌, ◌==◌, ◌%◌, ◌^◌, u64, incr, get_elem?, set_at, length,
  replicate, map, ltb,
}
use ysyx_np_sim.Mem.Types.{MemRwOpt, read, write, MemTrans, CpuTrans}
use ysyx_np_sim.Cache.Line.{Line, invalidate, activate, at_aligned}
use ysyx_np_sim.Cache.Policy.{Policy, on_fill}
use ysyx_np_sim.Cache.Prefetch.{Prefetcher}
use ysyx_np_sim.Cache.Prefetch
use ysyx_np_sim.Cache.Base.{
  Cache, Ref, access, probe, handle_fill, miss_victim_way, select_victim, line_at, put_line,
  set_index_of, tag_of, offset_of, find_way, strb_extend, merge,
}
use ysyx_np_sim.Cache.Events.{Event, cpu_resp, mem_req, inf_time, resp_of, write_trans}

-- `CachePipeEntry`
pub record Entry : Type 0 where
  pub addr : ℕ
  pub line : Option Ref
  pub mop : MemRwOpt
  pub wrstrb : ℕ
  pub wrdata : ℕ

pub record PipeCache : Type 0 where
  pub base : Cache
  pub pipe : List (Option Entry)
  pub write_back : Bool
  pub cwf : Bool
  pub wb_hit_resp_delay : ℕ
  pub r_waiting : Bool
  pub w_waiting : Bool
  pub is_shifted : Bool
  pub is_replay : Bool
  pub pending_flush : Bool
  pub pending_fill_req : Bool
  pub pending_evict : Bool
  pub evict_addr : ℕ
  pub evict_data : List ℕ
  pub blocked_until : ℕ
  pub sched_hit_time : ℕ
  pub sched_hit_resp : CpuTrans

unfoldable pub init : Cache → ℕ → Bool → Bool → ℕ → PipeCache
init base pipe_depth write_back cwf delay = record {
  base = base;
  pipe = replicate pipe_depth none;
  write_back = write_back;
  cwf = cwf;
  wb_hit_resp_delay = delay;
  r_waiting = false;
  w_waiting = false;
  is_shifted = true;
  is_replay = false;
  pending_flush = false;
  pending_fill_req = false;
  pending_evict = false;
  evict_addr = 0;
  evict_data = [];
  blocked_until = 0;
  sched_hit_time = inf_time;
  sched_hit_resp = resp_of 0 0 0 read;
}

unfoldable pub is_ready : PipeCache → Bool × Bool
is_ready p =
    let settled =
      not p.r_waiting
      && not p.w_waiting
      && not p.pending_fill_req
      && not p.is_replay
      && p.sched_hit_time == inf_time in
    let r = p.is_shifted && not p.pending_flush in
    let r' = if p.write_back then r && settled else r in
    (r', if p.write_back then r' else not p.pending_flush && not p.w_waiting)

pub next_update : PipeCache → ℕ
next_update p =
    if p.r_waiting && not p.pending_fill_req
    then p.sched_hit_time
    else min p.blocked_until p.sched_hit_time

-- Sends a response to the core, or schedules it where hits have a delay.
respond : PipeCache → CpuTrans → ℕ → PipeCache × List Event
respond p t now =
    if p.write_back && not (p.wb_hit_resp_delay == 0)
    then (record p { sched_hit_resp = t; sched_hit_time = u64 (now + p.wb_hit_resp_delay) }, [])
    else (p, cpu_resp t ∷ [])

hit_as : PipeCache → Entry → Ref → Line → ℕ → MemRwOpt → Option (PipeCache × List Event)
unfolding respond
hit_as p bk r l now read = do
  dt ← at_aligned l (offset_of p.base bk.addr)
  some (respond p (resp_of bk.addr dt p.base.cache_id read) now)
hit_as p bk r l now write = do
  let dt = merge (strb_extend bk.wrstrb) bk.wrdata bk.wrdata
  base ← put_line p.base r (record l { dirty = true })
  some (respond (record p { base = base }) (resp_of bk.addr dt p.base.cache_id write) now)

-- A write merges the entry's own word: the words of the line stay.
pub handle_hit : PipeCache → Entry → Ref → ℕ → Option (PipeCache × List Event)
unfolding hit_as
handle_hit p bk r now = do
  l ← line_at p.base r
  hit_as (record p { blocked_until = incr now }) bk r l now bk.mop

-- `pipe_.front()` is empty.
front_free : List (Option Entry) → Bool
front_free [] = false
front_free (none ∷ es) = true
front_free (some e ∷ es) = false

-- A request enters an empty front.
enter : PipeCache → Entry → ℕ → Option PipeCache
unfolding front_free
enter p e now = do
  assert p.is_shifted
  assert (front_free p.pipe)
  pipe ← set_at p.pipe 0 (some e)
  some (record p { pipe = pipe; blocked_until = incr now; is_shifted = false })

pub read_req : PipeCache → ℕ → ℕ → Option PipeCache
unfolding enter
read_req p addr now =
    enter p (record { addr = addr; line = none; mop = read; wrstrb = 0; wrdata = 0 }) now

-- Write-through: the line's word is updated where the address is cached.
store_word : Cache → Ref → ℕ → ℕ → ℕ → Option Cache
store_word c r addr word mask = do
  l ← line_at c r
  let stored = do
    w ← at_aligned l (offset_of c addr)
    words ← set_at l.words (shr (offset_of c addr) 2) (merge (strb_extend mask) w word)
    put_line c r (record l { words = words })
  if l.valid then stored else some c

through : Cache → ℕ → ℕ → ℕ → ℕ → Bool → Option Cache
unfolding store_word
through c addr word mask now false = some c
through c addr word mask now true = do (r, c') ← access c addr now; store_word c' r addr word mask

write_through : PipeCache → ℕ → ℕ → ℕ → ℕ → Option (PipeCache × List Event)
unfolding through
write_through p addr word mask now = do
  found ← probe p.base addr
  base ← through p.base addr word mask now found
  some (
    record p { base = base; w_waiting = true },
    mem_req (write_trans addr base.cache_id 1 (word ∷ []) (mask ∷ []))
        ∷ cpu_resp (resp_of addr 0 base.cache_id write)
        ∷ [],
  )

pub write_req : PipeCache → ℕ → ℕ → ℕ → ℕ → Option (PipeCache × List Event)
unfolding enter write_through
write_req p addr word mask now =
    if p.write_back
    then (enter p (record { addr = addr; line = none; mop = write; wrstrb = mask; wrdata = word })
          now
        >>= λ p'. some (p', []))
    else write_through p addr word mask now

unfoldable pub back : List (Option Entry) → Option (Option Entry)
back [] = none
back (e ∷ []) = some e
back (e ∷ f ∷ es) = back (f ∷ es)

fill_back : PipeCache → MemTrans → Option Entry → ℕ → Option Cache
fill_back p t none now = none
fill_back p t (some e) now = do r ← e.line; handle_fill p.base r t.addr now

recv_as : PipeCache → MemTrans → ℕ → MemRwOpt → Option PipeCache
unfolding back fill_back
recv_as p t now read = do
  assert p.r_waiting
  e ← back p.pipe
  base ← fill_back p t e now
  let turns = if p.cwf then 1 else if p.write_back then 2 else 1
  some (record p { base = base; r_waiting = false; blocked_until = u64 (now + turns) })
recv_as p t now write = do
  assert p.w_waiting
  let until = if p.write_back then p.blocked_until else u64 (now + 2)
  some (record p { w_waiting = false; blocked_until = until })

pub recv_mem_resp : PipeCache → MemTrans → ℕ → Option PipeCache
unfolding recv_as
recv_mem_resp p t now = recv_as p t now t.mop

pub pollute : Cache → ℕ → ℕ → Option Cache
pollute c addr now = do
  found ← probe c addr
  let filled = do (r, c') ← access c addr now; l ← line_at c' r; put_line c' r (activate l now)
  if found then some c else filled

pub flush_all : PipeCache → PipeCache
flush_all p = record p { pending_flush = true }

pub handle_flush : PipeCache → ℕ → PipeCache
handle_flush p now = record p {
  base = record p.base { sets_arr = map (map invalidate) p.base.sets_arr };
  pipe = map (λ e. none) p.pipe;
  is_shifted = true;
  is_replay = false;
  r_waiting = false;
  w_waiting = false;
  pending_flush = false;
  pending_fill_req = false;
  pending_evict = false;
  sched_hit_time = inf_time;
  blocked_until = incr now;
}
