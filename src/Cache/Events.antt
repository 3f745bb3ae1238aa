-- ===== src/Cache/Events.antt =====
-- What a cache calls while it runs, in the order of the calls: `cpu_resp_recv_`, `cpu_ack_recv_`
-- and `mem_side_->recv_req`. None of the three calls back into the cache.
use ysyx_np_sim.Prelude.{ℕ, ◌-◌, ◌^◌, List, []}
use ysyx_np_sim.Mem.Types.{MemRwOpt, read, write, req, MemTrans, CpuTrans, AckTrans}

pub data Event : Type 0 where
  cpu_resp : CpuTrans → Event
  cpu_ack : AckTrans → Event
  mem_req : MemTrans → Event

-- `InfTime`
abbrev pub inf_time : ℕ
inf_time = 2 ^ 64 - 1

abbrev pub resp_of : ℕ → ℕ → ℕ → MemRwOpt → CpuTrans
resp_of addr word id mop = record { addr = addr; word = word; id = id; mop = mop }

abbrev pub ack_of : ℕ → MemRwOpt → AckTrans
ack_of id mop = record { id = id; mop = mop }

abbrev pub read_trans : ℕ → ℕ → ℕ → MemTrans
read_trans addr id bst_len = record {
  dir = req;
  mop = read;
  addr = addr;
  id = id;
  bst_len = bst_len;
  words = [];
  strb = [];
  lat = 0;
}

abbrev pub write_trans : ℕ → ℕ → ℕ → List ℕ → List ℕ → MemTrans
write_trans addr id bst_len words strb = record {
  dir = req;
  mop = write;
  addr = addr;
  id = id;
  bst_len = bst_len;
  words = words;
  strb = strb;
  lat = 0;
}
