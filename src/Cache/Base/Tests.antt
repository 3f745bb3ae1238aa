-- ===== src/Cache/Base/Tests.antt =====
-- A cache of two sets of two lines of four bytes.
use ysyx_np_sim.Prelude.{◌≡◌, refl, false, true, none, [], ◌∷◌, ◌>>=◌, Returns, arith}
use ysyx_np_sim.Cache.Line
use ysyx_np_sim.Cache.Policy.{plru, supported}
use ysyx_np_sim.Cache.Policy.Valid.{Fits}
use ysyx_np_sim.Cache.Base.{Cache, access, probe, handle_fill}
use ysyx_np_sim.Cache.Base.Shape.{IsValid}
use ysyx_np_sim.Cache.Base.Refill.{access-handle_fill}

abbrev pub small : Cache
small = record {
  line_bytes = 4;
  offset_bits = 2;
  sets = 2;
  assoc = 2;
  cache_id = 0;
  victim_way_lag = false;
  lag_set_idx = 0;
  lag_set_valid = false;
  sets_arr = (Line.init 4 ∷ Line.init 4 ∷ []) ∷ (Line.init 4 ∷ Line.init 4 ∷ []) ∷ [];
  prefetcher = none;
  repl_policy = plru 2 (0 ∷ 0 ∷ []);
  accesses = 0;
  hits = 0;
  misses = 0;
}

pub small-IsValid : IsValid small
unfolding Fits supported
small-IsValid = record {
  bits = 1;
  sets_pow = refl;
  assoc_pos = omega arith;
  arr_length = refl;
  ways = (refl, (refl, tt));
  fits = (refl, refl, refl);
  lag_lt = omega arith;
}

access-handle_fill_example :
    Returns
      (do (r, c1) ← access small 8 5; c2 ← handle_fill c1 r 8 9; probe c2 8)
      (λ found. found ≡ true)
access-handle_fill_example = access-handle_fill small 8 5 9 small-IsValid
