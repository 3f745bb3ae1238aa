-- ===== src/Cache/PipeCache/Update.antt =====
-- cacheSim/CacheBase.cc: `PipeCache::update_impl`, with the eviction and the prefetch that it runs.
pub mod Pipe
pub mod Answers
pub mod Serve
mod Tests
use ysyx_np_sim.Prelude.{
  ℕ, zero, suc, ◌+◌, ◌*◌, ◌/◌, ◌%◌, Bool, true, false, ◌&&◌, ◌||◌, not, Option, none, some, List,
  [], ◌∷◌, ◌++◌, ◌>>=◌, ◌>>◌, assert, if◌then◌else◌, leb, ltb, u16, incr, get_elem?, length,
}
use ysyx_np_sim.Mem.Types.{MemRwOpt, read, write}
use ysyx_np_sim.Cache.Line.{Line, activate, at_aligned}
use ysyx_np_sim.Cache.Policy.{on_fill}
use ysyx_np_sim.Cache.Prefetch.{Prefetcher}
use ysyx_np_sim.Cache.Prefetch
use ysyx_np_sim.Cache.Base.{
  Cache, Ref, access, probe, miss_victim_way, select_victim, line_at, put_line, set_index_of,
  tag_of, find_way,
}
use ysyx_np_sim.Cache.Events.{
  Event, cpu_resp, cpu_ack, mem_req, inf_time, ack_of, read_trans, write_trans,
}
use ysyx_np_sim.Cache.PipeCache.{PipeCache, Entry, back, handle_hit, handle_flush}

-- The first `n` words of a line.
evict_words : Line → ℕ → ℕ → Option (List ℕ)
evict_words l i zero = some []
evict_words l i (suc n) = do w ← at_aligned l (i * 4); ws ← evict_words l (i + 1) n; some (w ∷ ws)

-- Saves the victim's dirty words before `access` invalidates it.
pub save_evict_info : PipeCache → ℕ → Option PipeCache
unfolding evict_words
save_evict_info p req_addr = do
  let p1 = record p { pending_evict = false }
  let si = set_index_of p.base req_addr
  let saved = do
    assert (ltb 0 p.base.assoc)
    w ← miss_victim_way p.base si
    l ← line_at p.base (record { set_idx = si; way = w % p.base.assoc })
    let words = do
      ws ← evict_words l 0 (p.base.line_bytes / 4)
      some (record p1 { pending_evict = true; evict_addr = l.tag; evict_data = ws })
    if l.valid && l.dirty then words else some p1
  if p.write_back then saved else some p1

-- Installs a prefetched line at once.
install : Cache → Prefetcher → ℕ → List Line → ℕ → Option Cache
install c pf paddr lines now = do
  let si = set_index_of c paddr
  way ← select_victim c si lines
  l ← get_elem? lines way
  (policy, l') ← on_fill c.repl_policy si way (activate (record l { tag = tag_of c paddr }) now) now
  put_line
      (record c {
        repl_policy = policy;
        prefetcher = some (record pf { prefetch_issued = incr pf.prefetch_issued });
      })
      (record { set_idx = si; way = way }) (record l' { is_prefetched = true })

install_new : Cache → Prefetcher → ℕ → List Line → ℕ → Option ℕ → Option (Bool × Cache)
unfolding install
install_new c pf paddr lines now (some i) = some (false, record c { prefetcher = some pf })
install_new c pf paddr lines now none = do c' ← install c pf paddr lines now; some (true, c')

prefetch_at : Cache → Prefetcher → ℕ → Option ℕ → Option (Bool × Cache)
unfolding install_new
prefetch_at c pf now none = some (false, record c { prefetcher = some pf })
prefetch_at c pf now (some paddr) = do
  lines ← get_elem? c.sets_arr (set_index_of c paddr)
  install_new c pf paddr lines now (find_way (tag_of c paddr) lines)

prefetch_with : Cache → Option Prefetcher → ℕ → Bool → ℕ → Option (Bool × Cache)
unfolding prefetch_at
prefetch_with c none addr is_hit now = some (false, c)
prefetch_with c (some pf) addr is_hit now =
    let (maybe, pf') = Prefetch.probe pf addr is_hit in prefetch_at c pf' now maybe

-- Whether a line was prefetched, and the cache after it.
pub handle_prefetch : Cache → ℕ → Bool → ℕ → Option (Bool × Cache)
unfolding prefetch_with
handle_prefetch c addr is_hit now = prefetch_with c c.prefetcher addr is_hit now

pub set_back : List (Option Entry) → Option Entry → List (Option Entry)
set_back [] e = []
set_back (f ∷ []) e = e ∷ []
set_back (f ∷ g ∷ es) e = f ∷ set_back (g ∷ es) e

-- `save_evict_info`, then `access`, whose line the last entry keeps.
pub locate : PipeCache → Entry → ℕ → Option (Ref × PipeCache)
unfolding set_back
locate p bk now = do
  p1 ← save_evict_info p bk.addr
  (r, base) ← access p1.base bk.addr now
  some (r, record p1 { base = base; pipe = set_back p1.pipe (some (record bk { line = some r })) })

located : PipeCache → Entry → ℕ → Option Ref → Option (Ref × PipeCache)
unfolding locate
located p bk now none = locate p bk now
located p bk now (some r) = some (r, p)

-- `bk->mop == Read && !r_waiting_`
may_prefetch : PipeCache → MemRwOpt → Bool
may_prefetch p read = not p.r_waiting
may_prefetch p write = false

serve_hit : PipeCache → Entry → Ref → Bool → ℕ → Option (PipeCache × List Event)
unfolding may_prefetch set_back
serve_hit p bk r was_miss now = do
  (p1, out) ← handle_hit p bk r now
  let prefetched = do
    (issued, base) ← handle_prefetch p1.base bk.addr (not was_miss) now
    some (record p1 { base = base })
  p2 ← if may_prefetch p1 bk.mop then prefetched else some p1
  some (record p2 { pipe = set_back p2.pipe none }, out)

-- A miss: a cycle of waiting, then the write-back of a dirty victim, then the refill.
serve_miss : PipeCache → Entry → ℕ → PipeCache × List Event
serve_miss p bk now =
    let waits = record p { blocked_until = incr now } in
    let evicts = record waits { w_waiting = true; pending_evict = false; evict_data = [] } in
    let fills = record p { pending_fill_req = false; r_waiting = true; is_replay = true } in
    let id = p.base.cache_id in
    if not p.pending_fill_req
    then (record waits { pending_fill_req = true }, [])
    else if p.w_waiting
    then (waits, [])
    else if p.pending_evict
    then (
      evicts,
      mem_req (write_trans p.evict_addr id (u16 (length p.evict_data)) p.evict_data []) ∷ [],
    )
    else (fills, mem_req (read_trans bk.addr id (u16 (p.base.line_bytes / 4))) ∷ [])

-- Serves the last entry; `true` where `update_impl` goes on.
serve : PipeCache → Entry → ℕ → Option (Bool × PipeCache × List Event)
unfolding located serve_hit serve_miss
serve p bk now = do
  (r, p1) ← located p bk now bk.line
  l ← line_at p1.base r
  assert (not p1.is_replay || l.valid)
  let p2 = record p1 { is_replay = false }
  let hit = do (q, sent) ← serve_hit p2 bk r p1.is_replay now; some (true, q, sent)
  let (p3, out) = serve_miss p2 bk now
  if l.valid then hit else some (false, p3, out)

pub serve_back : PipeCache → Option Entry → ℕ → Option (Bool × PipeCache × List Event)
unfolding serve
serve_back p none now = some (true, p, [])
serve_back p (some bk) now = serve p bk now

pub all_empty : List (Option Entry) → Bool
all_empty [] = true
all_empty (none ∷ es) = all_empty es
all_empty (some e ∷ es) = false

-- Every entry moves on by one, and the front is empty.
shift_from : Option Entry → List (Option Entry) → List (Option Entry)
shift_from e [] = []
shift_from e (f ∷ es) = e ∷ shift_from f es

pub shift_pipe : List (Option Entry) → List (Option Entry)
unfolding shift_from
shift_pipe [] = []
shift_pipe (e ∷ []) = e ∷ []
shift_pipe (e ∷ f ∷ es) = none ∷ shift_from e (f ∷ es)

-- Whether the new last entry misses: it has no line yet and is not in the cache.
tail_misses : PipeCache → Option Entry → Option Bool
tail_misses p none = some false
tail_misses p (some e) = elim e.line [
  | none ↦ do found ← probe p.base e.addr; some (not found)
  | some r ↦ some false
]

tail_miss : PipeCache → Option Entry → ℕ → Option PipeCache
unfolding locate
tail_miss p none now = none
tail_miss p (some e) now = do
  (r, p') ← locate p e now
  some (record p' { pending_fill_req = true; blocked_until = incr now })

-- The shift and the probe of the new last entry.
advance : PipeCache → ℕ → Option (PipeCache × List Event)
unfolding shift_pipe tail_misses tail_miss
advance p now = do
  let p1 = record p { pipe = shift_pipe p.pipe }
  e ← back p1.pipe
  misses ← tail_misses p1 e
  let missed = do p' ← tail_miss p1 e now; some (p', [])
  let id = p1.base.cache_id
  let acks = cpu_ack (ack_of id read) ∷ cpu_ack (ack_of id write) ∷ []
  if misses then missed else some (record p1 { is_shifted = true }, acks)

-- After the last entry is served: a pending flush of an empty pipe, or the shift.
finish : PipeCache → ℕ → Option (PipeCache × List Event)
unfolding all_empty advance
finish p now =
    if p.pending_flush && all_empty p.pipe then some (handle_flush p now, []) else advance p now

-- The delayed response of a hit.
deliver : PipeCache → ℕ → PipeCache × List Event
deliver p now =
    if leb p.sched_hit_time now
    then (record p { sched_hit_time = inf_time }, cpu_resp p.sched_hit_resp ∷ [])
    else (p, [])

pub update_impl : PipeCache → ℕ → Option (PipeCache × List Event)
unfolding deliver serve_back finish
update_impl p now = do
  let (p1, out1) = deliver p now
  bk ← back p1.pipe
  (goes_on, p2, out2) ← serve_back p1 bk now
  let rest = do (p3, out3) ← finish p2 now; some (p3, out1 ++ out2 ++ out3)
  if goes_on then rest else some (p2, out1 ++ out2)
