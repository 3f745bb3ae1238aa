-- ===== src/Pipe/Memory/Tests.antt =====
-- The theorem on cacheable addresses, in the SDRAM.
use ysyx_np_sim.Prelude.{◌≡◌, ◌↔◌, true, arith}
use ysyx_np_sim.Mem.Device.{mem_map, device_of}
use ysyx_np_sim.Pipe.Types.{is_cacheable_addr}
use ysyx_np_sim.Pipe.Memory.Cacheable.{cacheable-device_of}

cacheable-device_of_example :
    (is_cacheable_addr 0xa0001000 ≡ true) ↔ (device_of mem_map 3 0xa0001000 ≡ 0)
cacheable-device_of_example = cacheable-device_of 0xa0001000 (omega arith)
