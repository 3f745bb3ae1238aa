-- ===== src/Pipe/Types.antt =====
-- pipeSim/Pipeline.hh: the records and enumerations of the pipeline, and pipeSim/Pipeline.cc's range
-- of cacheable addresses.
use ysyx_np_sim.Prelude.{
  ℕ, ◌+◌, ◌-◌, ◌^◌, ◌%◌, Bool, false, not, ◌||◌, ◌==◌, List, [], bit_and, shr,
}
use ysyx_np_sim.Trace.{TraceInst}
use ysyx_np_sim.Branch.Types.{BranchResult, no_result}

-- `a - b` of two `size_t`, which wraps
abbrev pub sub64 : ℕ → ℕ → ℕ
sub64 a b = (a + 2 ^ 64 - b) % 2 ^ 64

-- `InfTime`
abbrev pub inf_time : ℕ
inf_time = 2 ^ 64 - 1

abbrev pub is_cacheable_addr : ℕ → Bool
is_cacheable_addr addr =
    let top = bit_and (shr addr 28) 0xf in
    top == 0x3 || top == 0x8 || top == 0x9 || top == 0xa || top == 0xb

pub data StallCause : Type 0 where
  no_stall stall_no_inst lsu_stall br_mispred raw : StallCause

-- The numbers of the enumeration.
abbrev pub cause_number : StallCause → ℕ
cause_number no_stall = 0
cause_number stall_no_inst = 1
cause_number lsu_stall = 2
cause_number br_mispred = 3
cause_number raw = 4

abbrev pub same_cause : StallCause → StallCause → Bool
same_cause a b = cause_number a == cause_number b

pub record PipelineStats : Type 0 where
  pub insts : ℕ
  pub cycles : ℕ
  pub nostall : ℕ
  pub noinst : ℕ
  pub lsu_stall : ℕ
  pub brmiss_stall : ℕ
  pub raw_stall : ℕ
  pub wp_bpu_queries : ℕ
  pub wp_btb_hits : ℕ
  pub wp_redirects : ℕ
  pub early_redirects : ℕ

-- The last four counters stay.
unfoldable pub reset_stats : PipelineStats → PipelineStats
reset_stats s = record s {
  insts = 0;
  cycles = 0;
  nostall = 0;
  noinst = 0;
  lsu_stall = 0;
  brmiss_stall = 0;
  raw_stall = 0;
}

pub record StallAttr : Type 0 where
  pub last_tick : ℕ
  pub reset_tick : ℕ
  pub cause : StallCause
  pub in_br_recovery : Bool

pub record Transaction : Type 0 where
  pub trace_inst : TraceInst
  pub br_pred : BranchResult
  pub br_mispred : Bool
  pub is_wrong_path : Bool
  pub wait_mem : Bool
  pub counted_inflight : Bool
  pub bp_meta_hold : ℕ

-- The constructor, with its optional arguments.
abbrev pub transaction : TraceInst → Bool → Bool → Transaction
transaction inst wrong_path is_wait_mem = record {
  trace_inst = inst;
  br_pred = no_result;
  br_mispred = false;
  is_wrong_path = wrong_path;
  wait_mem = is_wait_mem;
  counted_inflight = not wrong_path;
  bp_meta_hold = 0;
}

pub record FetchState : Type 0 where
  pub wrong_path : Bool
  pub wp_flushed : Bool
  pub wrong_path_pc : ℕ
  pub resume_tick : ℕ
  -- Of each request in flight, the oldest first, whether its response is to be ignored.
  pub resp_is_orphan : List Bool
  pub wp_redirect_s1 : Bool
  pub wp_redirect_target_s1 : ℕ
  pub wp_redirect_s2 : Bool
  pub wp_redirect_target_s2 : ℕ
  pub early_redir_remaining : ℕ
  pub early_redir_seq_pc : ℕ

abbrev pub init_fetch : FetchState
init_fetch = record {
  wrong_path = false;
  wp_flushed = false;
  wrong_path_pc = 0;
  resume_tick = 0;
  resp_is_orphan = [];
  wp_redirect_s1 = false;
  wp_redirect_target_s1 = 0;
  wp_redirect_s2 = false;
  wp_redirect_target_s2 = 0;
  early_redir_remaining = 0;
  early_redir_seq_pc = 0;
}

pub data PipeStage : Type 0 where
  fetch decode execute int_mul_ext int_div_ext memory write_back : PipeStage

-- An array with one element for each stage.
pub record PerStage (A : Type 0) : Type 0 where
  pub in_fetch : A
  pub in_decode : A
  pub in_execute : A
  pub in_mul : A
  pub in_div : A
  pub in_memory : A
  pub in_write_back : A

abbrev pub get : {A : Type 0} → PipeStage → PerStage A → A
get fetch a = a.in_fetch
get decode a = a.in_decode
get execute a = a.in_execute
get int_mul_ext a = a.in_mul
get int_div_ext a = a.in_div
get memory a = a.in_memory
get write_back a = a.in_write_back

abbrev pub put : {A : Type 0} → PipeStage → A → PerStage A → PerStage A
put fetch v a = record a { in_fetch = v }
put decode v a = record a { in_decode = v }
put execute v a = record a { in_execute = v }
put int_mul_ext v a = record a { in_mul = v }
put int_div_ext v a = record a { in_div = v }
put memory v a = record a { in_memory = v }
put write_back v a = record a { in_write_back = v }

abbrev pub everywhere : {A : Type 0} → A → PerStage A
everywhere v = record {
  in_fetch = v;
  in_decode = v;
  in_execute = v;
  in_mul = v;
  in_div = v;
  in_memory = v;
  in_write_back = v;
}
