-- ===== src/Cache/PipeCache/Steps.antt =====
-- The calls that `PipeCache` gets between its construction and any later tick.
use ysyx_np_sim.Prelude.{ℕ, ◌+◌, ◌<◌, ◌≡◌, some, List}
use ysyx_np_sim.Mem.Types.{MemTrans}
use ysyx_np_sim.Cache.Base.{Cache}
use ysyx_np_sim.Cache.Events.{Event, inf_time}
use ysyx_np_sim.Cache.PipeCache.{PipeCache, read_req, write_req, recv_mem_resp, flush_all}
use ysyx_np_sim.Cache.PipeCache.Update.{update_impl}
use ysyx_np_sim.Cache.PipeCache.Update.Pipe.{held}
use ysyx_np_sim.Cache.PipeCache.Update.Serve.{answers, IsPrompt, Alike}

-- After any calls of a cache and ticks of it: the cache, the requests it took, and the answers that
-- it gave.
pub data Steps (p : PipeCache) : PipeCache → ℕ → ℕ → Type 0 where
  start : Steps p p 0 0
  reads :
      {q q' : PipeCache} {taken given : ℕ} (addr now : ℕ)
      → Steps p q taken given
      → read_req q addr now ≡ some q'
      → Steps p q' (taken + 1) given
  writes :
      {q q' : PipeCache} {taken given : ℕ} (addr word mask now : ℕ) (out : List Event)
      → Steps p q taken given
      → write_req q addr word mask now ≡ some (q', out)
      → Steps p q' (taken + 1) (given + answers out)
  responds :
      {q q' : PipeCache} {taken given : ℕ} (t : MemTrans) (now : ℕ)
      → Steps p q taken given
      → recv_mem_resp q t now ≡ some q'
      → Steps p q' taken given
  flushes :
      {q : PipeCache} {taken given : ℕ} → Steps p q taken given → Steps p (flush_all q) taken given
  ticks :
      {q q' : PipeCache} {taken given : ℕ} (now : ℕ) (out : List Event)
      → Steps p q taken given
      → now < inf_time
      → update_impl q now ≡ some (q', out)
      → Steps p q' taken (given + answers out)

-- A cache that answers at once took so many requests more than it gave answers as the pipe gained.
abbrev Accounts : PipeCache → PipeCache → ℕ → ℕ → Type 0
Accounts p q taken given = IsPrompt q × (held p.pipe + taken ≡ held q.pipe + given)

-- A request is in the pipe after it entered.
abbrev Enters : PipeCache → PipeCache → Type 0
Enters p q = Alike p q × (held q.pipe ≡ held p.pipe + 1)

-- A write is in the pipe, or answered.
abbrev Takes : PipeCache → PipeCache × List Event → Type 0
Takes p x = Alike p x.0 × (held x.0.pipe + answers x.1 ≡ held p.pipe + 1)

-- The answer of the memory changes no request.
abbrev Holds : PipeCache → PipeCache → Type 0
Holds p q = Alike p q × (held q.pipe ≡ held p.pipe)
