-- ===== src/Branch.antt =====
-- branchSim: the direction predictors, the BTB, the return stack and the unit that joins them.
pub mod Types
pub mod Counter
pub mod History
pub mod Bimodal
pub mod GShare
pub mod Tournament
pub mod Tage
pub mod Btb
pub mod Ras
pub mod Interface
pub mod Unit
