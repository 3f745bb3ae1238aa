-- ===== src/Debug/Tests.antt =====
-- Two flags, one of them twice.
use ysyx_np_sim.Prelude.{◌≡◌, [], ◌∷◌}
use ysyx_np_sim.Debug.{set_flags, cache, mem}
use ysyx_np_sim.Debug.Flags.{bit, joined, set_flags-joined}

set_flags-joined_example : bit 7 (set_flags 1 (joined (cache ∷ mem ∷ cache ∷ []))) ≡ 1
set_flags-joined_example = set_flags-joined (cache ∷ mem ∷ cache ∷ []) 1 7
