-- ===== src/Mem/Types.antt =====
-- defines/interface.hh: what caches, memory and the core hand to one another.
use ysyx_np_sim.Prelude.{ℕ, List}

pub data MemRwOpt : Type 0 where
  read write : MemRwOpt

pub data Direction : Type 0 where
  req resp : Direction

pub record MemTrans : Type 0 where
  pub dir : Direction
  pub mop : MemRwOpt
  pub addr : ℕ
  pub id : ℕ
  pub bst_len : ℕ
  pub words : List ℕ
  pub strb : List ℕ
  -- Set by the device.
  pub lat : ℕ

pub record CpuTrans : Type 0 where
  pub addr : ℕ
  pub word : ℕ
  pub id : ℕ
  pub mop : MemRwOpt

pub record AckTrans : Type 0 where
  pub id : ℕ
  pub mop : MemRwOpt
