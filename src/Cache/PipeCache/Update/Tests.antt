-- ===== src/Cache/PipeCache/Update/Tests.antt =====
-- A tick of a cache that moves a request on.
use ysyx_np_sim.Prelude.{List, false, true, none, some, ◌∷◌, []}
use ysyx_np_sim.Cache.Base.Tests.{small}
use ysyx_np_sim.Cache.PipeCache.{PipeCache, Entry, init}
use ysyx_np_sim.Cache.Events.{Event, cpu_ack, ack_of}
use ysyx_np_sim.Mem.Types.{read, write}

abbrev read_8 : Entry
read_8 = record { addr = 8; line = none; mop = read; wrstrb = 0; wrdata = 0 }

-- A read of address 8, and a tick, which moves it on.
abbrev new : PipeCache
new = init small 3 false false 0

abbrev after_read : PipeCache
after_read = record new {
  pipe = some read_8 ∷ none ∷ none ∷ [];
  blocked_until = 2;
  is_shifted = false;
}

abbrev after_tick : PipeCache
after_tick = record new {
  pipe = none ∷ some read_8 ∷ none ∷ [];
  blocked_until = 2;
  is_shifted = true;
}

abbrev acks : List Event
acks = cpu_ack (ack_of 0 read) ∷ cpu_ack (ack_of 0 write) ∷ []
