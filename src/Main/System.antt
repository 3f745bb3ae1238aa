-- ===== src/Main/System.antt =====
-- main.cc: the machine that `main` builds and wires, with the pipeline as its core. The memory and
-- the caches are any that answer as `Devices` says; what they send to the core while they run is a
-- list in the order of the calls, since the core does not call back into them from its handlers.
use ysyx_np_sim.Prelude.{ℕ, Option, some, List, [], ◌∷◌, ◌>>=◌}
use ysyx_np_sim.Mem.Types.{CpuTrans, AckTrans}
use ysyx_np_sim.Branch.Unit
use ysyx_np_sim.Branch.Interface.{BranchPred}
use ysyx_np_sim.Pipe.Core.{
  Core, Ports, Port, imem, dmem, dmem_nc, inst_avail, is_finished, set_draining,
}
use ysyx_np_sim.Pipe.Core
use ysyx_np_sim.Pipe.Respond.{recv_mem_resp, ack_mem_avail}
use ysyx_np_sim.Pipe.Fetch.{feed_inst}
use ysyx_np_sim.Pipe.Update.{update_impl}
use ysyx_np_sim.Main.{Clocked, Machine}

pub data Device : Type 0 where
  memory dmem_bypass dcache icache : Device

-- `cpu_rsp` and `cpu_ack` of `main`
pub data CpuEvent : Type 0 where
  responded : CpuTrans → CpuEvent
  acknowledged : AckTrans → CpuEvent

pub record Devices (C : Type 0) : Type 0 where
  pub next_update : Device → C → ℕ
  pub update_impl : Device → C → ℕ → Option (C × List CpuEvent)
  pub flush_all : Port → C → C
  pub reset_stats : C → C

module _ {P C : Type 0} where
  unfoldable pub receive : Core P C → List CpuEvent → ℕ → Option (Core P C)
  receive c [] now = some c
  receive c (responded resp ∷ events) now = do c1 ← recv_mem_resp c resp now; receive c1 events now
  receive c (acknowledged ack ∷ events) now = do c1 ← ack_mem_avail c ack now; receive c1 events now

module _ {P C : Type 0} (api : BranchPred P) (io : Ports C) (devices : Devices C) where
  unfoldable pub device_update : Device → Core P C → ℕ → Option (Core P C)
  unfolding receive
  device_update device c now = do
    (ports, events) ← devices.update_impl device c.ports now
    receive (record c { ports = ports }) events now

  abbrev pub clocked : Device → Clocked (Core P C)
  clocked device = record {
    next_update = λ c. devices.next_update device c.ports;
    update_impl = device_update device;
  }

  abbrev pub flush : Port → Core P C → Core P C
  flush port c = record c { ports = devices.flush_all port c.ports }

  -- The objects of `simlist`: those behind the ports, the branch unit and the core.
  unfoldable pub reset_all : Core P C → ℕ → Core P C
  reset_all c now =
      Core.reset_stats
        (record c { ports = devices.reset_stats c.ports; bpu = Unit.reset_stats api c.bpu }) now

  abbrev pub machine : Machine (Core P C)
  machine = record {
    memory = clocked memory;
    dmem_bypass = clocked dmem_bypass;
    dcache = clocked dcache;
    icache = clocked icache;
    core = record { next_update = Core.next_update; update_impl = update_impl api io };
    inst_avail = inst_avail;
    feed_inst = feed_inst api io;
    set_draining = set_draining;
    is_finished = is_finished;
    flush_icache = flush imem;
    flush_dcache = flush dmem;
    flush_bypass = flush dmem_nc;
    reset_stats = reset_all;
  }
