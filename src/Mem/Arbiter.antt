-- ===== src/Mem/Arbiter.antt =====
-- cacheSim/RamConn.hh and RamConn.cc: `RAMArbiter`. Its read and its write channel run the same
-- code, which is written once here. `none` is a failed assertion or an access out of range.
-- `curr_tick()` is the argument `now`. A host's `recv_mem_resp` is the parameter `respond`: the
-- host's new state, and the requests that it makes from within the call.
pub mod Priority
pub mod Slots
pub mod Next
mod Tests
use ysyx_np_sim.Prelude.{
  map, min, ℕ, suc, ◌+◌, ◌-◌, ◌^◌, Bool, true, false, not, ◌&&◌, Option, none, some, List, [], ◌∷◌,
  ◌>>=◌, ◌>>◌, assert, if◌then◌else◌, ltb, leb, ◌==◌, u64, incr, length, get_elem?, set, set_at,
  replicate,
}
use ysyx_np_sim.Mem.Types.{MemRwOpt, read, write, resp, MemTrans}
use ysyx_np_sim.Mem.Device.{Device, AddrMapEntry, device_of}
use ysyx_np_sim.Mem.Device

abbrev pub inf_time : ℕ
inf_time = 2 ^ 64 - 1

-- `static_cast<uint16_t>(-1)`
abbrev pub no_id : ℕ
no_id = 2 ^ 16 - 1

-- The requests of one host, `HostRWChannel`.
pub record Ports : Type 0 where
  pub rd : Option MemTrans
  pub wr : Option MemTrans

pub record Channel : Type 0 where
  pub serving_id : ℕ
  pub busy_until : ℕ

pub record Arbiter : Type 0 where
  pub rd_channel : Channel
  pub wr_channel : Channel
  pub devices : List Device
  pub addr_map : List AddrMapEntry
  pub default_device : ℕ
  pub reqs : List Ports
  pub host_rd : List ℕ
  pub host_wr : List ℕ
  pub host_dev : List (List ℕ)

abbrev pub idle : Channel
idle = record { serving_id = no_id; busy_until = inf_time }

unfoldable pub init : ℕ → List Device → List AddrMapEntry → ℕ → Arbiter
init hosts devices addr_map default_device = record {
  rd_channel = idle;
  wr_channel = idle;
  devices = devices;
  addr_map = addr_map;
  default_device = default_device;
  reqs = replicate hosts (record { rd = none; wr = none });
  host_rd = replicate hosts 0;
  host_wr = replicate hosts 0;
  host_dev = replicate hosts (replicate (length devices) 0);
}

abbrev pub slot : MemRwOpt → Ports → Option MemTrans
slot read p = p.rd
slot write p = p.wr

abbrev pub put : MemRwOpt → Ports → Option MemTrans → Ports
put read p t = record p { rd = t }
put write p t = record p { wr = t }

abbrev pub channel : MemRwOpt → Arbiter → Channel
channel read a = a.rd_channel
channel write a = a.wr_channel

abbrev pub put_channel : MemRwOpt → Arbiter → Channel → Arbiter
put_channel read a c = record a { rd_channel = c }
put_channel write a c = record a { wr_channel = c }

pub next_update : Arbiter → ℕ
next_update a = min a.rd_channel.busy_until a.wr_channel.busy_until

pub reset_stats : Arbiter → Arbiter
reset_stats a = record a {
  host_rd = map (λ n. 0) a.host_rd;
  host_wr = map (λ n. 0) a.host_wr;
  host_dev = map (map (λ n. 0)) a.host_dev;
  devices = map Device.reset_stats a.devices;
}

-- `++v[i]`
bump : List ℕ → ℕ → Option (List ℕ)
bump xs i = do n ← get_elem? xs i; set_at xs i (incr n)

count_host : Arbiter → MemRwOpt → ℕ → Option Arbiter
unfolding bump
count_host a read h = do host_rd ← bump a.host_rd h; some (record a { host_rd = host_rd })
count_host a write h = do host_wr ← bump a.host_wr h; some (record a { host_wr = host_wr })

count_device : Arbiter → ℕ → ℕ → Option Arbiter
unfolding bump
count_device a h did = do
  row ← get_elem? a.host_dev h
  row' ← bump row did
  host_dev ← set_at a.host_dev h row'
  some (record a { host_dev = host_dev })

pub lat_of : Arbiter → MemTrans → ℕ → Option (ℕ × Arbiter)
lat_of a t now = do
  assert (ltb t.id (length a.reqs))
  let did = device_of a.addr_map a.default_device t.addr
  assert (ltb did (length a.devices))
  a1 ← count_host a t.mop t.id
  a2 ← count_device a1 t.id did
  d ← get_elem? a2.devices did
  (lat, d') ← Device.access d t now
  devices ← set_at a2.devices did d'
  some (lat, record a2 { devices = devices })

-- Puts a request into its host's slot.
pub place : Arbiter → ℕ → MemRwOpt → Option MemTrans → Option Arbiter
place a id mop t = do
  p ← get_elem? a.reqs id
  some (record a { reqs = set a.reqs id (put mop p t) })

-- Starts serving `t`, `wait` ticks from now.
pub start : Arbiter → MemTrans → ℕ → ℕ → Option Arbiter
unfolding place
start a t now wait = do
  (lat, a') ← lat_of a t now
  placed ← place a' t.id t.mop (some (record t { lat = lat }))
  some
      (put_channel t.mop placed (record { serving_id = t.id; busy_until = u64 (now + wait + lat) }))

is_free : Option MemTrans → Bool
is_free none = true
is_free (some t) = false

pub recv_req : Arbiter → MemTrans → ℕ → Option Arbiter
unfolding is_free place start
recv_req a t now = do
  p ← get_elem? a.reqs t.id
  assert (is_free (slot t.mop p))
  placed ← place a t.id t.mop (some t)
  if (channel t.mop placed).busy_until == inf_time then start placed t now 0 else some placed

pub recv_all : Arbiter → List MemTrans → ℕ → Option Arbiter
recv_all a [] now = some a
recv_all a (t ∷ ts) now = do a' ← recv_req a t now; recv_all a' ts now

abbrev pub later_or : Option MemTrans → Option MemTrans → Option MemTrans
later_or none t = t
later_or (some t) u = some t

-- The last host, hence the one of the highest id, with a request in its slot.
pub last_pending : MemRwOpt → List Ports → Option MemTrans
last_pending mop [] = none
last_pending mop (p ∷ ps) = later_or (last_pending mop ps) (slot mop p)

pick_next : Arbiter → MemRwOpt → ℕ → Option MemTrans → Option Arbiter
unfolding start
pick_next a mop now none = some a
pick_next a mop now (some t) = start a t now 1

module _ {H : Type 0} (respond : H → ℕ → MemTrans → H × List MemTrans) where
  -- The response goes out, and with it the slot is free again.
  complete : Arbiter → H → MemRwOpt → ℕ → Option (Arbiter × H)
  unfolding place pick_next
  complete a h mop now = do
    let id = (channel mop a).serving_id
    p ← get_elem? a.reqs id
    t ← slot mop p
    freed ← place a id mop none
    let (h', issued) = respond h id (record t { dir = resp })
    a' ← recv_all freed issued now
    next ← pick_next (put_channel mop a' idle) mop now (last_pending mop a'.reqs)
    some (next, h')

  -- `busy_until <= curr_tick() && serving_id != -1`
  pub due : Channel → ℕ → Bool
  due c now = leb c.busy_until now && not (c.serving_id == no_id)

  pub serve_channel : Arbiter → H → MemRwOpt → ℕ → Option (Arbiter × H)
  unfolding complete due
  serve_channel a h mop now = if due (channel mop a) now then complete a h mop now else some (a, h)

  pub update_impl : Arbiter → H → ℕ → Option (Arbiter × H)
  unfolding serve_channel
  update_impl a h now = do (a', h') ← serve_channel a h read now; serve_channel a' h' write now
