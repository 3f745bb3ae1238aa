-- ===== src/Lib.antt =====
-- npSim: a trace-driven timing model of a RISC-V processor. The pipeline fetches through a
-- branch unit and an instruction cache, loads and stores go through a data cache, a store buffer
-- or an uncached port, and all of these share the memory arbiter, which reaches the SDRAM model
-- and the devices of constant latency by an address map.
--
-- Parts, by directory of the repository's src/:
-- - branchSim: Branch/Bimodal, Branch/GShare and Branch/Tournament are the predictors of
--   Bimodal.hh and Bimodal.cc; Branch/Btb, Branch/Ras and Branch/Unit are `CompressedBTB` and
--   `NoBTB`, `ReturnAddrStack` and `BranchUnit` of BranchPred.hh and BranchPred.cc;
--   Branch/Interface is the virtual class `BranchPred`, as a record that the unit is given.
--   Branch/Tage, with `fold_ghr`, `predict` and the updates in modules of their own, is
--   `TagePredictor` of Tage.hh and Tage.cc.
-- - cacheSim/RamModel.hh, RamConn.hh and RamConn.cc: Mem/Sdram, Mem/Device and Mem/Arbiter.
-- - cacheSim/CacheLine.hh, ReplPolicy and Prefetcher: Cache/Line, Cache/Policy and Cache/Prefetch.
-- - cacheSim/CacheBase.hh and CacheBase.cc: Cache/Base is `CacheBase`, Cache/PipeCache, with its
--   `update_impl` in Cache/PipeCache/Update, is `PipeCache`, Cache/StoreBuffer is `StoreBuffer` and
--   Cache/NoCache is `NoCache`.
-- - pipeSim/Pipeline.hh and Pipeline.cc: Pipe/Ifq is `IFQRingBuf`, Pipe/Stall the attribution of
--   cycles, Pipe/Core the state of `Pipeline` with its schedule. The handlers are in Pipe/Respond
--   (answers of the caches), Pipe/Fetch, Pipe/Decode, Pipe/Execute, Pipe/Memory and Pipe/Update
--   (write-back and `update_impl`). The core is over any `BranchPred` and, as a record `Ports` of
--   what it calls, over any caches; a response that a cache sends from inside `write_req` is
--   handled at once.
-- - trace.hh: Trace is `TraceInst` and `TraceSanitizer`.
-- - main.cc: Options is `parse_size` and `parse_entries_pow2`, on lists of character codes,
--   Options/Args is `parse_args` on what `getopt_long` returns, with the static variables as a
--   record `Config`, and Options/Build makes the predictor, the BTB and the prefetcher that it asks
--   for. The address map that `main` builds is in Mem/Device. Main is the simulation loop, over a record
--   `Machine` of what it calls; Main/System is such a machine with the pipeline as its core, over
--   any memory and caches (`Devices`). `do_update` of defines/base.hh is in Main.
-- - defines/debug.hh: Debug is the flags and `set_flags`.
--
-- A member function `f` of a class is the function `f` of the class's module, spelled in snake
-- case, from the state before to the state after; a class's fields are those of a record.
-- Virtual classes are data types or records of functions. `none` is a fault: a failed assertion,
-- `.at` out of range, a null pointer, or the overflow of an `int`. Unsigned words wrap as
-- written out. What code calls through a stored handler (the core's and the memory's side of a
-- cache) is a list of events in the order of the calls; a host's handler in the arbiter is a
-- parameter. `curr_tick()` is an argument. Prelude holds lists, words, bits and the fault monad
-- on native numbers.
--
-- A shift of `1u` or `1` by the exponent of a table size or the width of a tag or a history is
-- undefined in C++ from 32, or 31, on: the constructors of the predictors and the BTB model the
-- code for smaller exponents, and Options/Build, which calls them, has a fault for the others.
--
-- Fuel: 63 for `floor_log2` in Cache/Base, which a 64-bit word cannot exceed, and 64 for
-- `fold_ghr` in Branch/Tage/Fold, whose history has 64 bits and loses at least one in each
-- round; `countr_zero` in Options counts on the 64 bits of a `size_t`; the simulation loop in
-- Main is given a number of rounds, and as many as `max_ticks` has ticks are enough; all other
-- loops are structural.
--
-- The Makefile defines `ACTIVE_MODE`, so that refills and reads carry no words; the code without
-- it is not modelled. Not modelled either: the trace reader (trace.cc), which runs a
-- decompressor; `getopt_long`, and the rest of main.cc, which allocates the parts and prints;
-- the counters and distributions of libs/stats_template, which nothing uses; JSON and text output,
-- debug printing and area estimates, which change no state.
pub mod Prelude
pub mod Branch
pub mod Mem
pub mod Cache
pub mod Trace
pub mod Pipe
pub mod Options
pub mod Main
pub mod Debug
