-- ===== src/Cache/Prefetch.antt =====
-- cacheSim/Prefetcher.hh and Prefetcher.cc. Addresses are `uint32_t`; a stride is the bit pattern
-- of an `int32_t`, so that sums and differences are those of `uint32_t`.
use ysyx_np_sim.Prelude.{
  ℕ, ◌+◌, Bool, not, ◌&&◌, Option, none, some, if◌then◌else◌, ◌==◌, sub32, u32,
}

-- The subclasses of `Prefetcher`.
pub data Kind : Type 0 where
  next_line : Kind
  stride : (last_addr last_stride : ℕ) → Kind
  tagged : Kind

pub record Prefetcher : Type 0 where
  pub kind : Kind
  pub blk_size : ℕ
  pub prefetch_issued : ℕ
  pub prefetch_useful : ℕ

probe_as : Kind → ℕ → ℕ → Bool → Option ℕ × Kind
probe_as next_line blk_size addr is_hit = (some (u32 (addr + blk_size)), next_line)
probe_as (stride last_addr last_stride) blk_size addr is_hit =
    let s = sub32 addr last_addr in
    (if not (s == 0) && s == last_stride then some (u32 (addr + s)) else none, stride addr s)
probe_as tagged blk_size addr is_hit =
    (if not is_hit then some (u32 (addr + blk_size)) else none, tagged)

pub probe : Prefetcher → ℕ → Bool → Option ℕ × Prefetcher
unfolding probe_as
probe p addr is_hit =
    let (found, kind) = probe_as p.kind p.blk_size addr is_hit in (found, record p { kind = kind })

pub set_block_size : Prefetcher → ℕ → Prefetcher
set_block_size p size = record p { blk_size = size }

pub reset_stats : Prefetcher → Prefetcher
reset_stats p = record p { prefetch_issued = 0; prefetch_useful = 0 }
