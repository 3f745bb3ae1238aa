-- ===== src/Mem/Device.antt =====
-- cacheSim/RamConn.hh: the RAM devices and the address map.
use ysyx_np_sim.Prelude.{
  ℕ, ◌+◌, Bool, true, false, not, ◌&&◌, Option, some, List, [], ◌∷◌, ◌>>=◌, ◌>>◌, assert,
  if◌then◌else◌, leb, ◌==◌, u64, u32, incr,
}
use ysyx_np_sim.Mem.Types.{MemRwOpt, read, write, MemTrans}
use ysyx_np_sim.Mem.Sdram.{Sdram}
use ysyx_np_sim.Mem.Sdram

abbrev pub is_read : MemRwOpt → Bool
is_read read = true
is_read write = false

-- The subclasses of `RamDevice`.
pub data Model : Type 0 where
  const_latency : (lat_read lat_write : ℕ) → Model
  sdram : Sdram → Model

pub record Device : Type 0 where
  pub model : Model
  pub accesses : ℕ
  pub reads : ℕ
  pub writes : ℕ
  pub total_lat_cyc : ℕ

-- The constructor of `ConstLatencyRamDevice`.
unfoldable pub init_const : ℕ → ℕ → Device
init_const lat_read lat_write = record {
  model = const_latency lat_read (if lat_write == 0 then lat_read else lat_write);
  accesses = 0;
  reads = 0;
  writes = 0;
  total_lat_cyc = 0;
}

-- `SdramModel::access` takes the tick as a `tint_t`, of 32 bits.
latency_impl : Model → MemTrans → ℕ → Option (ℕ × Model)
latency_impl (const_latency lat_read lat_write) t now =
    some (if is_read t.mop then lat_read else lat_write, const_latency lat_read lat_write)
latency_impl (sdram s) t now = do
  assert (leb 1 t.bst_len)
  (lat, s') ← Sdram.access s t.addr t.bst_len (not (is_read t.mop)) (u32 now) t.id
  some (lat, sdram s')

pub access : Device → MemTrans → ℕ → Option (ℕ × Device)
unfolding latency_impl
access d t now = do
  (lat, model) ← latency_impl d.model t now
  some (
    lat,
    record {
      model = model;
      accesses = incr d.accesses;
      reads = if is_read t.mop then incr d.reads else d.reads;
      writes = if is_read t.mop then d.writes else incr d.writes;
      total_lat_cyc = u64 (d.total_lat_cyc + lat);
    },
  )

reset_model : Model → Model
reset_model (const_latency lat_read lat_write) = const_latency lat_read lat_write
reset_model (sdram s) = sdram (Sdram.reset_stats s)

pub reset_stats : Device → Device
unfolding reset_model
reset_stats d = record {
  model = reset_model d.model;
  accesses = 0;
  reads = 0;
  writes = 0;
  total_lat_cyc = 0;
}

pub record AddrMapEntry : Type 0 where
  pub lo : ℕ
  pub hi : ℕ
  pub device_id : ℕ

abbrev pub contains : AddrMapEntry → ℕ → Bool
contains e addr = leb e.lo addr && leb addr e.hi

-- The first entry that contains the address, or the default device.
unfoldable pub device_of : List AddrMapEntry → ℕ → ℕ → ℕ
device_of [] default_device addr = default_device
device_of (e ∷ es) default_device addr =
    if contains e addr then e.device_id else device_of es default_device addr

-- main.cc: the SoC's devices 0 SDRAM, 1 SRAM, 2 CLINT, 3 other.
abbrev pub mem_map : List AddrMapEntry
mem_map =
    record { lo = 0x02000000; hi = 0x0200ffff; device_id = 2 }
    ∷ record { lo = 0x0f000000; hi = 0x0fffffff; device_id = 1 }
    ∷ record { lo = 0x30000000; hi = 0x3fffffff; device_id = 0 }
    ∷ record { lo = 0x80000000; hi = 0x9fffffff; device_id = 0 }
    ∷ record { lo = 0xa0000000; hi = 0xbfffffff; device_id = 0 }
    ∷ []
