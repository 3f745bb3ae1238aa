-- ===== src/Cache/NoCache.antt =====
-- cacheSim/CacheBase.hh and CacheBase.cc: `NoCache`. `none` is a failed assertion.

use ysyx_np_sim.Prelude.{
  ℕ, Bool, true, false, not, Option, some, List, [], ◌∷◌, ◌>>◌, assert, ◌==◌, length, incr,
}
use ysyx_np_sim.Mem.Types.{MemRwOpt, read, write, MemTrans}
use ysyx_np_sim.Cache.Events.{
  Event, cpu_resp, cpu_ack, mem_req, resp_of, ack_of, read_trans, write_trans,
}

pub record NoCache : Type 0 where
  pub cache_id : ℕ
  pub r_busy : Bool
  pub w_busy : Bool
  pub accesses : ℕ
  pub misses : ℕ

unfoldable pub init : ℕ → NoCache
init cache_id = record {
  cache_id = cache_id;
  r_busy = false;
  w_busy = false;
  accesses = 0;
  misses = 0;
}

unfoldable pub is_ready : NoCache → Bool × Bool
is_ready c = (not c.r_busy, not c.w_busy)

pub read_req : NoCache → ℕ → Option (NoCache × List Event)
read_req c addr = do
  assert (not c.r_busy)
  some (
    record c { r_busy = true; accesses = incr c.accesses; misses = incr c.misses },
    mem_req (read_trans addr c.cache_id 1) ∷ [],
  )

pub write_req : NoCache → ℕ → ℕ → ℕ → Option (NoCache × List Event)
write_req c addr word mask = do
  assert (not c.w_busy)
  some (
    record c { w_busy = true; accesses = incr c.accesses; misses = incr c.misses },
    mem_req (write_trans addr c.cache_id 1 (word ∷ []) (mask ∷ [])) ∷ [],
  )

recv_as : NoCache → MemTrans → MemRwOpt → Option (NoCache × List Event)
recv_as c t read = do
  assert c.r_busy
  assert (length t.words == 0)
  some (
    record c { r_busy = false },
    cpu_resp (resp_of t.addr 0xdeadbeef c.cache_id read) ∷ cpu_ack (ack_of c.cache_id read) ∷ [],
  )
recv_as c t write = do
  assert c.w_busy
  some (
    record c { w_busy = false },
    cpu_resp (resp_of t.addr 0xbadc0de c.cache_id write) ∷ cpu_ack (ack_of c.cache_id write) ∷ [],
  )

pub recv_mem_resp : NoCache → MemTrans → Option (NoCache × List Event)
unfolding recv_as
recv_mem_resp c t = recv_as c t t.mop
