-- ===== src/Pipe.antt =====
-- pipeSim: the in-order core, driven by a trace.
pub mod Types
pub mod Ifq
pub mod Stall
pub mod Core
pub mod Respond
pub mod Fetch
pub mod Decode
pub mod Execute
pub mod Memory
pub mod Update
pub mod Wake
pub mod InFlight
pub mod Reach
mod Tests
