-- ===== src/Mem/Arbiter/Tests.antt =====
-- Three hosts: the first is served and answered, the second waits for a read.
use ysyx_np_sim.Prelude.{ℕ, ◌≡◌, refl, true, none, some, List, [], ◌∷◌, Ensures, ◌+◌}
use ysyx_np_sim.Mem.Types.{read, req, MemTrans}
use ysyx_np_sim.Mem.Device.{init_const}
use ysyx_np_sim.Mem.Arbiter.{Arbiter, Ports, channel, init, due, serve_channel}
use ysyx_np_sim.Mem.Arbiter.Slots.{IsSlotted}
use ysyx_np_sim.Mem.Arbiter.Next.{Serves, serve_channel-Serves}

abbrev read_of : ℕ → MemTrans
read_of id = record {
  dir = req;
  mop = read;
  addr = 64;
  id = id;
  bst_len = 1;
  words = [];
  strb = [];
  lat = 0;
}

abbrev waiting : List Ports
waiting =
    record { rd = some (read_of 0); wr = none }
    ∷ record { rd = some (read_of 1); wr = none }
    ∷ record { rd = none; wr = none }
    ∷ []

abbrev serving : Arbiter
serving = record (init 3 (init_const 5 0 ∷ []) [] 0) {
  reqs = waiting;
  rd_channel = record { serving_id = 0; busy_until = 7 };
}

-- A host that counts its answers and asks for nothing.
abbrev respond : ℕ → ℕ → MemTrans → ℕ × List MemTrans
respond h id t = (h + 1, [])

is_due : due respond (channel read serving) 7 ≡ true
unfolding due init
is_due = refl

serve_channel-Serves_example :
    Ensures (serve_channel respond serving 0 read 7) (λ x. IsSlotted x.0.reqs × Serves read 7 x.0)
serve_channel-Serves_example =
    serve_channel-Serves respond serving 0 read 7
      (((refl, refl), tt), (((refl, refl), tt), ((tt, tt), tt))) is_due
