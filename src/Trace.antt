-- ===== src/Trace.antt =====
-- trace.hh: the record of one traced instruction, and `TraceSanitizer`, which counts them.
pub mod Counts
mod Tests
use ysyx_np_sim.Prelude.{ℕ, Bool, not, ◌&&◌, ◌==◌, if◌then◌else◌, incr}

-- `TraceInst`; its small fields are `uint8_t`.
pub record TraceInst : Type 0 where
  pub pc : ℕ
  -- The address of a load or store, or a taken branch's target.
  pub mem_addr : ℕ
  pub mem_op : ℕ
  pub is_branch : ℕ
  pub br_taken : ℕ
  pub dst_reg : ℕ
  pub src_reg0 : ℕ
  pub src_reg1 : ℕ
  pub sys_op : ℕ
  pub ext_op : ℕ

-- `MemOp`
abbrev pub mem_none : ℕ
mem_none = 0

abbrev pub mem_load : ℕ
mem_load = 1

abbrev pub mem_store : ℕ
mem_store = 2

-- `ExtOp`
abbrev pub ext_none : ℕ
ext_none = 0

abbrev pub int_mul_l : ℕ
int_mul_l = 1

abbrev pub int_mul_h : ℕ
int_mul_h = 2

abbrev pub int_div : ℕ
int_div = 3

abbrev pub int_rem : ℕ
int_rem = 4

-- A field that C++ takes for a truth value.
abbrev pub is_set : ℕ → Bool
is_set n = not (n == 0)

-- `TraceInst{}`
abbrev pub no_inst : TraceInst
no_inst = record {
  pc = 0;
  mem_addr = 0;
  mem_op = 0;
  is_branch = 0;
  br_taken = 0;
  dst_reg = 0;
  src_reg0 = 0;
  src_reg1 = 0;
  sys_op = 0;
  ext_op = 0;
}

pub record Sanitizer : Type 0 where
  pub total : ℕ
  pub loads : ℕ
  pub stores : ℕ
  pub branches : ℕ
  pub br_taken : ℕ
  pub br_not_taken : ℕ
  pub alu : ℕ
  pub has_dst : ℕ
  pub has_src1 : ℕ
  pub has_src2 : ℕ
  pub sys_ops : ℕ
  pub m_ext_ops : ℕ
  pub br_taken_no_target : ℕ

unfoldable pub reset : Sanitizer
reset = record {
  total = 0;
  loads = 0;
  stores = 0;
  branches = 0;
  br_taken = 0;
  br_not_taken = 0;
  alu = 0;
  has_dst = 0;
  has_src1 = 0;
  has_src2 = 0;
  sys_ops = 0;
  m_ext_ops = 0;
  br_taken_no_target = 0;
}

-- `if (b) n++`
abbrev pub count_if : Bool → ℕ → ℕ
count_if b n = if b then incr n else n

unfoldable pub tally : Sanitizer → TraceInst → Sanitizer
tally s t =
    let load = t.mem_op == mem_load in
    let branch = is_set t.is_branch in
    let taken = branch && is_set t.br_taken in
    record {
      total = incr s.total;
      loads = count_if load s.loads;
      stores = count_if (not load && t.mem_op == mem_store) s.stores;
      branches = count_if branch s.branches;
      br_taken = count_if taken s.br_taken;
      br_not_taken = count_if (branch && not (is_set t.br_taken)) s.br_not_taken;
      alu = count_if (t.mem_op == mem_none && not branch) s.alu;
      has_dst = count_if (is_set t.dst_reg) s.has_dst;
      has_src1 = count_if (is_set t.src_reg0) s.has_src1;
      has_src2 = count_if (is_set t.src_reg1) s.has_src2;
      sys_ops = count_if (is_set t.sys_op) s.sys_ops;
      m_ext_ops = count_if (is_set t.ext_op) s.m_ext_ops;
      br_taken_no_target = count_if (taken && t.mem_addr == 0) s.br_taken_no_target;
    }
