-- ===== src/Pipe/Tests.antt =====
-- The theorems on the core, at cores with a predictor that answers always taken.
use ysyx_np_sim.Prelude.{
  zero, suc, ◌%◌, List, [], ◌∷◌, get_elem?, Returns, ℕ, ◌+◌, ◌<◌, ◌≤◌, ◌≡◌, ◌⊎◌, refl, true, false,
  arith, none, some, Ensures,
}
use ysyx_np_sim.Branch.Unit.{BranchUnit}
use ysyx_np_sim.Branch.Unit
use ysyx_np_sim.Branch.Interface.{always_taken}
use ysyx_np_sim.Trace.{no_inst, int_div}
use ysyx_np_sim.Pipe.Types.{Transaction, transaction, write_back, fetch, get, put, init_fetch}
use ysyx_np_sim.Pipe.Core.{Core, Ports, calc_sched, set_slot}
use ysyx_np_sim.Pipe.Core
use ysyx_np_sim.Pipe.Ifq.Queue.{Represents}
use ysyx_np_sim.Pipe.InFlight.{InFlight, weight, in_queue}
use ysyx_np_sim.Pipe.Execute.{flush_front}
use ysyx_np_sim.Pipe.Execute.Flush.{Flushed, flush_front-Flushed}
use ysyx_np_sim.Pipe.Update.{update_impl}
use ysyx_np_sim.Pipe.Update.Flow.{update_impl-InFlight}
use ysyx_np_sim.Pipe.Reach.{started, is_finished-empty}
use ysyx_np_sim.Pipe.Wake.{IsIdle, calc_sched-wakes}
use ysyx_np_sim.Pipe.Decode.{do_decode}
use ysyx_np_sim.Pipe.Decode.Hazard.{Decodes, do_decode-Issues}

-- No instruction yet, with a queue of four slots.
abbrev idle : Core ℕ ℕ
idle = Core.init (Unit.init 0 none 0) 0 true 4 3 0

-- Caches that are always ready and answer a write later.
abbrev caches : Ports ℕ
caches = record {
  is_ready = λ c port. (true, true);
  read_req = λ c port addr now. some (c + 1);
  write_req = λ c port addr word strb now. some (c + 1, []);
}

abbrev division : Transaction
division = transaction (record no_inst { ext_op = int_div; dst_reg = 6 }) false false

abbrev placeholder : Transaction
placeholder = transaction no_inst true true

-- A division sits in Fetch, another in the queue before a placeholder of the wrong path that the
-- front end is on, and a write-back is due at tick 12.
abbrev busy : Core ℕ ℕ
busy = record (set_slot idle fetch (some division)) {
  stage_update = put write_back 12 idle.stage_update;
  fetch_state = record init_fetch { wrong_path = true; resp_is_orphan = false ∷ [] };
  fetch_queue = record {
    buf = some placeholder ∷ some division ∷ [];
    cap = 2;
    head = 1;
    tail = 1;
    cnt = 2;
  };
  ongoing_insts = 2;
}

busy-InFlight : InFlight busy
unfolding Core.init
busy-InFlight = record {
  entries = division ∷ placeholder ∷ [];
  queue = record {
    size = refl;
    head_in = omega arith;
    count = refl;
    fits = omega arith;
    next = refl;
    slots = slots;
  };
  fresh = (refl, (refl, tt));
  fetch_fresh = refl;
  input_real = tt;
  decode_counted = tt;
  execute_counted = tt;
  mul_counted = tt;
  div_counted = tt;
  memory_counted = tt;
  number = refl;
  room = omega arith;
}
  where
    slots :
        (i : ℕ)
        → i < 2
        → get_elem? busy.fetch_queue.buf ((1 + i) % 2)
          ≡ some (get_elem? (division ∷ placeholder ∷ []) i)
    slots zero h = refl
    slots (suc zero) h = refl
    slots (suc (suc i)) h = absurd (omega arith)

update_impl-InFlight_example : Ensures (update_impl always_taken caches busy 8) InFlight
update_impl-InFlight_example = update_impl-InFlight always_taken caches busy 8 busy-InFlight

flush_front-Flushed_example : Returns (flush_front busy 8) (Flushed busy 8)
flush_front-Flushed_example = flush_front-Flushed busy 8 busy-InFlight

is_finished-empty_example :
    (idle.input_buffer ≡ none)
    × (idle.sim_pipe.in_decode ≡ none)
    × (idle.sim_pipe.in_execute ≡ none)
    × (idle.sim_pipe.in_mul ≡ none)
    × (idle.sim_pipe.in_div ≡ none)
    × (idle.sim_pipe.in_memory ≡ none)
    × (weight idle.sim_pipe.in_fetch ≡ 0)
    × ((entries : List Transaction) × Represents idle.fetch_queue entries × (in_queue entries ≡ 0))
unfolding Core.init
is_finished-empty_example =
    is_finished-empty always_taken caches idle
      (started (Unit.init 0 none 0) 0 true 4 3 0 (omega arith) (omega arith)) refl

calc_sched-wakes_example :
    (8 < (calc_sched busy 8).calc_nxtupd)
    × ((get write_back busy.stage_update ≤ 8)
        ⊎ ((calc_sched busy 8).calc_nxtupd ≤ get write_back busy.stage_update))
    × (IsIdle busy.fetch_state 8 ⊎ ((calc_sched busy 8).calc_nxtupd ≡ 8 + 1))
unfolding Core.init
calc_sched-wakes_example = calc_sched-wakes busy 8 write_back refl (omega arith)

do_decode-Issues_example : Ensures (do_decode busy 8) (Decodes 8 busy)
do_decode-Issues_example = do_decode-Issues busy 8
