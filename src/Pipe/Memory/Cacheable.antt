-- ===== src/Pipe/Memory/Cacheable.antt =====
-- The addresses that the core takes for cacheable, against the address map of main.cc.
use ysyx_np_sim.Prelude.{
  ℕ, ◌/◌, ◌^◌, ◌<◌, ◌≡◌, ◌↔◌, ◌∙◌, true, arith, shr, bit_and, bit_and-mask, ◌||◌, ◌==◌,
}
use native.Mathlib.Nat.{mod-eq_of_lt}
use ysyx_np_sim.Mem.Device.{mem_map, device_of}
use ysyx_np_sim.Pipe.Types.{is_cacheable_addr}

top-device :
    (addr : ℕ)
    → addr < 2 ^ 32
    → ((addr / 2 ^ 28 == 0x3
          || addr / 2 ^ 28 == 0x8
          || addr / 2 ^ 28 == 0x9
          || addr / 2 ^ 28 == 0xa
          || addr / 2 ^ 28 == 0xb)
        ≡ true)
      ↔ (device_of mem_map 3 addr ≡ 0)
unfolding device_of
top-device addr h = ground arith

-- The core takes an address of 32 bits for cacheable just where the address map leads to device 0,
-- the SDRAM model.
pub cacheable-device_of :
    (addr : ℕ) → addr < 2 ^ 32 → (is_cacheable_addr addr ≡ true) ↔ (device_of mem_map 3 addr ≡ 0)
cacheable-device_of addr h =
    let e : bit_and (shr addr 28) 0xf ≡ addr / 2 ^ 28 =
      bit_and-mask 4 (shr addr 28) ∙ mod-eq_of_lt (omega arith) in
    rw e (top-device addr h)
