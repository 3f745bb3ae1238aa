-- ===== src/Trace/Counts.antt =====
-- What the counters of `TraceSanitizer` come to over a trace.
use ysyx_np_sim.Prelude.{
  ℕ, ◌+◌, ◌^◌, ◌%◌, ◌≡◌, Bool, not, ◌&&◌, List, [], ◌∷◌, length, ◌==◌, if◌then◌else◌,
}
use ysyx_np_sim.Trace.{TraceInst, is_set, mem_none, mem_load, mem_store, Sanitizer, tally}

-- `record` on each instruction of a trace.
unfoldable pub tallies : Sanitizer → List TraceInst → Sanitizer
tallies s [] = s
tallies s (t ∷ ts) = tallies (tally s t) ts

-- How many instructions of the trace pass the test.
unfoldable pub number : (TraceInst → Bool) → List TraceInst → ℕ
number p [] = 0
number p (t ∷ ts) = if p t then number p ts + 1 else number p ts

abbrev pub is_branch : TraceInst → Bool
is_branch t = is_set t.is_branch

abbrev pub is_taken : TraceInst → Bool
is_taken t = is_set t.is_branch && is_set t.br_taken

abbrev pub is_not_taken : TraceInst → Bool
is_not_taken t = is_set t.is_branch && not (is_set t.br_taken)

abbrev pub is_load : TraceInst → Bool
is_load t = t.mem_op == mem_load

abbrev pub is_store : TraceInst → Bool
is_store t = t.mem_op == mem_store

abbrev pub is_alu : TraceInst → Bool
is_alu t = t.mem_op == mem_none && not (is_set t.is_branch)

abbrev pub is_bare : TraceInst → Bool
is_bare t = is_taken t && t.mem_addr == 0

-- A counter holds a number, as a `size_t`.
abbrev pub Holds : ℕ → ℕ → Type 0
Holds counter n = counter % 2 ^ 64 ≡ n % 2 ^ 64

-- Each of the 13 counters holds the number of the instructions of its class.
pub record Counted (ts : List TraceInst) (s : Sanitizer) : Type 0 where
  pub total : Holds s.total (length ts)
  pub loads : Holds s.loads (number is_load ts)
  pub stores : Holds s.stores (number is_store ts)
  pub branches : Holds s.branches (number is_branch ts)
  pub br_taken : Holds s.br_taken (number is_taken ts)
  pub br_not_taken : Holds s.br_not_taken (number is_not_taken ts)
  pub alu : Holds s.alu (number is_alu ts)
  pub has_dst : Holds s.has_dst (number (λ t. is_set t.dst_reg) ts)
  pub has_src1 : Holds s.has_src1 (number (λ t. is_set t.src_reg0) ts)
  pub has_src2 : Holds s.has_src2 (number (λ t. is_set t.src_reg1) ts)
  pub sys_ops : Holds s.sys_ops (number (λ t. is_set t.sys_op) ts)
  pub m_ext_ops : Holds s.m_ext_ops (number (λ t. is_set t.ext_op) ts)
  pub br_taken_no_target : Holds s.br_taken_no_target (number is_bare ts)
