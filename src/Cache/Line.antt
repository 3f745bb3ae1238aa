-- ===== src/Cache/Line.antt =====
-- cacheSim/CacheLine.hh: `CacheLine`. `curr_tick()` is the argument `now`.
use ysyx_np_sim.Prelude.{ℕ, Bool, true, false, Option, List, shr, get_elem?, replicate}

pub record Line : Type 0 where
  pub tag : ℕ
  pub valid : Bool
  pub dirty : Bool
  pub words : List ℕ
  pub stamp : ℕ
  pub is_prefetched : Bool

unfoldable pub init : ℕ → Line
init line_size = record {
  tag = 0;
  valid = false;
  dirty = false;
  words = replicate (shr line_size 2) 0;
  stamp = 0;
  is_prefetched = false;
}

-- The dirty bit stays.
abbrev pub invalidate : Line → Line
invalidate l = record l { tag = 0; stamp = 0; valid = false }

abbrev pub activate : Line → ℕ → Line
activate l now = record l { valid = true; dirty = false; stamp = now }

-- `atAligned`
abbrev pub at_aligned : Line → ℕ → Option ℕ
at_aligned l off = get_elem? l.words (shr off 2)
