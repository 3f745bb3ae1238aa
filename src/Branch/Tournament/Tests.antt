-- ===== src/Branch/Tournament/Tests.antt =====
-- Runs of `TournamentPredictor`.
use ysyx_np_sim.Prelude.{arith}
use ysyx_np_sim.Branch.Tournament.{Tournament, init}
use ysyx_np_sim.Branch.Tournament.Laws.{IsValid, init-IsValid}

abbrev small : Tournament
small = init 3 4

small-IsValid : IsValid 3 small
small-IsValid = init-IsValid 3 4 (omega arith)
