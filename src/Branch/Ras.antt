-- ===== src/Branch/Ras.antt =====
-- branchSim/BranchPred.hh: `ReturnAddrStack`, a ring that forgets its oldest entry. Its sizes are
-- those of a vector, so `tos_ + 1` and `cnt_++` do not wrap. `none` is an access out of range.
pub mod Laws
mod Tests
use ysyx_np_sim.Prelude.{
  ℕ, ◌+◌, ◌-◌, ◌%◌, Bool, Option, none, some, List, ◌>>=◌, if◌then◌else◌, ltb, ◌==◌, length,
  get_elem?, set_at, replicate,
}

pub record Ras : Type 0 where
  pub stack : List ℕ
  pub tos : ℕ
  pub cnt : ℕ

unfoldable pub init : ℕ → Ras
init depth = record { stack = replicate depth 0; tos = 0; cnt = 0 }

pub push : Ras → ℕ → Option Ras
push r addr = do
  let size = length r.stack
  let tos = (r.tos + 1) % size
  stack ← set_at r.stack tos addr
  some (record { stack = stack; tos = tos; cnt = if ltb r.cnt size then r.cnt + 1 else r.cnt })

pub pop : Ras → Ras
pop r =
    if ltb 0 r.cnt
    then record r { tos = if r.tos == 0 then length r.stack - 1 else r.tos - 1; cnt = r.cnt - 1 }
    else r

pub top : Ras → Option ℕ
top r = let entry = get_elem? r.stack r.tos in if ltb 0 r.cnt then entry else some 0

pub valid : Ras → Bool
valid r = ltb 0 r.cnt

pub depth : Ras → ℕ
depth r = length r.stack
