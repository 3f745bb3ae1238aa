-- ===== src/Mem.antt =====
-- cacheSim/RamModel and RamConn: the memory side.
pub mod Types
pub mod Sdram
pub mod Device
pub mod Arbiter
