-- ===== src/Cache/PipeCache/Tests.antt =====
-- A wrong-path fill of an empty cache.
use ysyx_np_sim.Prelude.{arith, ◌≡◌, refl, false, some, ◌>>=◌, Returns}
use ysyx_np_sim.Cache.Line
use ysyx_np_sim.Cache.Line.{Line}
use ysyx_np_sim.Cache.Base.{find_way, is_found, probe}
use ysyx_np_sim.Cache.Base.Access.{probe_lem}
use ysyx_np_sim.Cache.Base.Tests.{small, small-IsValid}
use ysyx_np_sim.Cache.PipeCache.{pollute}
use ysyx_np_sim.Cache.PipeCache.Pollute.{pollute-probe}

small-probe : probe small 8 ≡ some false
unfolding Line.init find_way is_found
small-probe = probe_lem small 8 _ refl

pollute-probe_example : Returns (do d ← pollute small 8 5; probe d 8) (λ found. found ≡ false)
pollute-probe_example = pollute-probe small 8 5 small-IsValid small-probe (λ e. ground arith)
