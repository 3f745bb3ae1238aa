-- ===== src/Cache/StoreBuffer.antt =====
-- cacheSim/CacheBase.hh and CacheBase.cc: `StoreBuffer`. `none` is a failed assertion or the front
-- of an empty list; `curr_tick()` is the argument `now`. Of the base class it uses the counters.

pub mod Flush
pub mod Forward
mod Tests
use ysyx_np_sim.Prelude.{
  ℕ, min, Bool, true, false, not, ◌&&◌, Option, none, some, List, [], ◌∷◌, ◌++◌, ◌>>◌, assert,
  if◌then◌else◌, ltb, leb, ◌==◌, length, incr,
}
use ysyx_np_sim.Mem.Types.{MemRwOpt, read, write, MemTrans, CpuTrans}
use ysyx_np_sim.Cache.Events.{
  Event, cpu_resp, cpu_ack, mem_req, inf_time, resp_of, ack_of, read_trans, write_trans,
}

-- `StBufEnt`
pub record Entry : Type 0 where
  pub addr : ℕ
  pub word : ℕ
  pub mask : ℕ

pub record StoreBuffer : Type 0 where
  pub cache_id : ℕ
  pub entries : ℕ
  pub r_busy : Bool
  pub w_busy : Bool
  pub pending_flush : Bool
  pub fifo : List Entry
  pub sched_r_time : ℕ
  pub sched_w_time : ℕ
  pub pending_rmiss_time : ℕ
  pub pending_rmiss_addr : ℕ
  pub sched_r_resp : CpuTrans
  pub sched_w_resp : CpuTrans
  pub accesses : ℕ
  pub hits : ℕ
  pub misses : ℕ

unfoldable pub init : ℕ → ℕ → StoreBuffer
init entries cache_id = record {
  cache_id = cache_id;
  entries = entries;
  r_busy = false;
  w_busy = false;
  pending_flush = false;
  fifo = [];
  sched_r_time = inf_time;
  sched_w_time = inf_time;
  pending_rmiss_time = inf_time;
  pending_rmiss_addr = 0;
  sched_r_resp = resp_of 0 0 0 read;
  sched_w_resp = resp_of 0 0 0 read;
  accesses = 0;
  hits = 0;
  misses = 0;
}

unfoldable pub is_ready : StoreBuffer → Bool × Bool
is_ready b =
    let w_rdy = if b.entries == 0 then not b.w_busy else ltb (length b.fifo) b.entries in
    if b.pending_flush then (false, false) else (not b.r_busy, w_rdy)

pub flush_all : StoreBuffer → StoreBuffer
flush_all b = record b { pending_flush = true }

pub next_update : StoreBuffer → ℕ
next_update b = min b.sched_r_time (min b.sched_w_time b.pending_rmiss_time)

-- A store that covers the whole word at `addr`.
abbrev pub covers : ℕ → Entry → Bool
covers addr e = e.addr == addr && e.mask == 0xf

-- `std::find_if`
unfoldable pub find_entry : ℕ → List Entry → Option Entry
find_entry addr [] = none
find_entry addr (e ∷ es) = let rest = find_entry addr es in if covers addr e then some e else rest

abbrev pub read_found : StoreBuffer → ℕ → ℕ → Option Entry → StoreBuffer
read_found b addr now none = record b {
  misses = incr b.misses;
  pending_rmiss_time = incr now;
  pending_rmiss_addr = addr;
  r_busy = true;
}
read_found b addr now (some e) = record b {
  hits = incr b.hits;
  sched_r_time = incr now;
  sched_r_resp = resp_of addr e.word b.cache_id read;
}

unfoldable pub read_req : StoreBuffer → ℕ → ℕ → StoreBuffer
read_req b addr now =
    read_found (record b { accesses = incr b.accesses }) addr now (find_entry addr b.fifo)

abbrev pub write_of : StoreBuffer → Entry → Event
write_of b e = mem_req (write_trans e.addr b.cache_id 1 (e.word ∷ []) (e.mask ∷ []))

-- A write without a buffer goes to memory at once.
unbuffered : StoreBuffer → Entry → StoreBuffer × List Event
unbuffered b e = (record b { misses = incr b.misses; w_busy = true }, write_of b e ∷ [])

buffered : StoreBuffer → Entry → ℕ → StoreBuffer
buffered b e now = record b {
  fifo = b.fifo ++ (e ∷ []);
  sched_w_time = incr now;
  sched_w_resp = resp_of e.addr 0xbadc0de b.cache_id write;
}

pub write_req : StoreBuffer → ℕ → ℕ → ℕ → ℕ → Option (StoreBuffer × List Event)
unfolding unbuffered buffered
write_req b addr word mask now =
    let b1 = record b { accesses = incr b.accesses } in
    let e : Entry = record { addr = addr; word = word; mask = mask } in
    if b.entries == 0
    then some (unbuffered b1 e)
    else (assert (ltb (length b.fifo) b.entries) >> some (buffered b1 e now, []))

-- Sends the oldest store to memory, if there is one.
pub drain : StoreBuffer → List Entry → StoreBuffer × List Event
drain b [] = (b, [])
drain b (e ∷ es) = (record b { w_busy = true }, write_of b e ∷ [])

recv_read : StoreBuffer → MemTrans → ℕ → Option (StoreBuffer × List Event)
recv_read b t now = do
  assert (length t.words == 0)
  some (
    record b { sched_r_time = incr now; sched_r_resp = resp_of t.addr 0xbeefc0de b.cache_id read },
    [],
  )

-- The slot of the oldest store is free again; a full buffer tells the core so.
pub recv_front : StoreBuffer → MemTrans → List Entry → Option (StoreBuffer × List Event)
unfolding drain
recv_front b t [] = none
recv_front b t (e ∷ es) = do
  assert (e.addr == t.addr)
  let acks = if length b.fifo == b.entries then cpu_ack (ack_of b.cache_id write) ∷ [] else []
  let (b', out) = drain (record b { fifo = es; w_busy = false }) es
  some (b', acks ++ out)

recv_write : StoreBuffer → MemTrans → ℕ → Option (StoreBuffer × List Event)
unfolding recv_front
recv_write b t now =
    let b1 = record b {
      sched_w_time = incr now;
      sched_w_resp = resp_of t.addr 0xbadc0de b.cache_id write;
      w_busy = false;
    } in
    if b.entries == 0 then some (b1, []) else recv_front b t b.fifo

recv_as : StoreBuffer → MemTrans → ℕ → MemRwOpt → Option (StoreBuffer × List Event)
unfolding recv_read recv_write
recv_as b t now read = recv_read b t now
recv_as b t now write = recv_write b t now

pub recv_mem_resp : StoreBuffer → MemTrans → ℕ → Option (StoreBuffer × List Event)
unfolding recv_as
recv_mem_resp b t now = recv_as b t now t.mop

-- The three parts of `update_impl`, in the order of the code.
send_miss : StoreBuffer → ℕ → StoreBuffer × List Event
send_miss b now =
    if leb b.pending_rmiss_time now
    then (
      record b { pending_rmiss_time = inf_time },
      mem_req (read_trans b.pending_rmiss_addr b.cache_id 1) ∷ [],
    )
    else (b, [])

send_read : StoreBuffer → ℕ → StoreBuffer × List Event
send_read b now =
    if leb b.sched_r_time now
    then (record b { sched_r_time = inf_time; r_busy = false }, cpu_resp b.sched_r_resp ∷ [])
    else (b, [])

-- The acknowledged store goes to memory unless one is under way.
pub send_store : StoreBuffer → StoreBuffer × List Event
unfolding drain
send_store b = if b.w_busy then (b, []) else drain b b.fifo

send_write : StoreBuffer → ℕ → StoreBuffer × List Event
unfolding send_store
send_write b now =
    let (b', out) = send_store (record b { sched_w_time = inf_time }) in
    if leb b.sched_w_time now then (b', cpu_resp b.sched_w_resp ∷ out) else (b, [])

pub update_impl : StoreBuffer → ℕ → StoreBuffer × List Event
unfolding send_miss send_read send_write
update_impl b now =
    let (b1, out1) = send_miss b now in
    let (b2, out2) = send_read b1 now in
    let (b3, out3) = send_write b2 now in (b3, out1 ++ out2 ++ out3)
