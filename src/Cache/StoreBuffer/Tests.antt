-- ===== src/Cache/StoreBuffer/Tests.antt =====
-- A buffer of two entries that holds two stores to one address.
use ysyx_np_sim.Prelude.{◌≡◌, ◌≤◌, refl, false, [], ◌∷◌, length, incr, arith}
use ysyx_np_sim.Mem.Types.{read}
use ysyx_np_sim.Cache.Events.{resp_of}
use ysyx_np_sim.Cache.StoreBuffer.{StoreBuffer, Entry, init, is_ready, flush_all, read_req}
use ysyx_np_sim.Cache.StoreBuffer.Flush.{
  done, then_step, reads, flushes, Steps-bounded, flush_all-is_ready,
}
use ysyx_np_sim.Cache.StoreBuffer.Forward.{read_req-oldest}

abbrev older : Entry
older = record { addr = 64; word = 1; mask = 15 }

abbrev newer : Entry
newer = record { addr = 64; word = 2; mask = 15 }

abbrev two_stores : StoreBuffer
two_stores = record (init 2 1) { fifo = older ∷ newer ∷ [] }

Steps-bounded_example :
    length (read_req (flush_all two_stores) 64 7).fifo
    ≤ (read_req (flush_all two_stores) 64 7).entries
unfolding init
Steps-bounded_example =
    Steps-bounded two_stores (read_req (flush_all two_stores) 64 7)
      (then_step (then_step done flushes) (reads 64 7)) (omega arith)

flush_all-is_ready_example : is_ready (read_req (flush_all two_stores) 64 7) ≡ (false, false)
flush_all-is_ready_example =
    flush_all-is_ready two_stores (read_req (flush_all two_stores) 64 7)
      (then_step done (reads 64 7))

read_req-oldest_example :
    let d = read_req two_stores 64 7 in
    (d.sched_r_resp ≡ resp_of 64 1 1 read)
    × (d.sched_r_time ≡ incr 7)
    × (d.hits ≡ incr 0)
    × (d.misses ≡ 0)
    × (d.fifo ≡ two_stores.fifo)
unfolding init
read_req-oldest_example = read_req-oldest two_stores 64 7 [] (newer ∷ []) older refl tt refl
