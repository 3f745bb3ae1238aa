-- ===== src/Cache.antt =====
-- cacheSim: cache lines, replacement, prefetch, tag lookup and the buffers in front of memory.
pub mod Line
pub mod Policy
pub mod Prefetch
pub mod Base
pub mod Events
pub mod StoreBuffer
pub mod NoCache
pub mod PipeCache
