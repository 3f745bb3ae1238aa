-- ===== src/Cache/Policy/Tests.antt =====
-- Runs of the replacement policies.
use ysyx_np_sim.Prelude.{
  ℕ, ◌<◌, ◌≢◌, refl, false, true, List, [], ◌∷◌, ◌>>=◌, arith, get_elem?, Returns,
}
use ysyx_np_sim.Cache.Line.{Line}
use ysyx_np_sim.Cache.Policy.{lru, victim_way, update_bits, get_victim}
use ysyx_np_sim.Cache.Policy.Plru.{victim-update_bits}
use ysyx_np_sim.Cache.Policy.Order.{Oldest, lru-get_victim}

abbrev stamped : ℕ → Line
stamped t = record {
  tag = 0;
  valid = true;
  dirty = false;
  words = [];
  stamp = t;
  is_prefetched = false;
}

abbrev ways : List Line
ways = stamped 7 ∷ stamped 3 ∷ stamped 9 ∷ []

victim-update_bits_example :
    Returns
      (do
        bits1 ← update_bits 4 (0 ∷ 5 ∷ []) 1 2
        bits2 ← update_bits 4 bits1 1 0
        victim_way 4 bits2 1)
      (λ v. (v < 4) × (v ≢ 2) × (v ≢ 0))
victim-update_bits_example =
    victim-update_bits (0 ∷ 5 ∷ []) 1 2 0 5 refl (omega arith) (omega arith) (omega arith)

lru-get_victim_example :
    Returns (get_victim lru 0 ways) (λ w. Returns (get_elem? ways w) (Oldest ways))
lru-get_victim_example = lru-get_victim 0 ways (omega arith)
