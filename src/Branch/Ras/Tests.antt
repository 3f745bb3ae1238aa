-- ===== src/Branch/Ras/Tests.antt =====
-- Runs of the return address stack.
use ysyx_np_sim.Prelude.{◌≡◌, refl, [], ◌∷◌, Returns, arith}
use ysyx_np_sim.Branch.Ras.{Ras, push, depth}
use ysyx_np_sim.Branch.Ras.Laws.{IsValid, contents, take, push_refines}

-- A full stack whose top has gone round.
abbrev full : Ras
full = record { stack = 0x30 ∷ 0x10 ∷ 0x20 ∷ []; tos = 0; cnt = 3 }

full-IsValid : IsValid full
full-IsValid = omega arith

contents-full : contents full ≡ 0x30 ∷ 0x20 ∷ 0x10 ∷ []
contents-full = refl

push_refines_example : Returns (push full 0x40) (λ r'.
    IsValid r' × (depth r' ≡ depth full) × (contents r' ≡ take (depth full) (0x40 ∷ contents full)))
push_refines_example = push_refines full 0x40 full-IsValid
