-- ===== src/Pipe/Ifq/Tests.antt =====
-- The theorems on the instruction queue, at a queue of three slots whose window wraps.
use ysyx_np_sim.Prelude.{
  ℕ, zero, suc, ◌+◌, ◌%◌, get_elem?, ◌≡◌, ◌<◌, refl, none, some, [], ◌∷◌, arith, Returns,
}
use ysyx_np_sim.Pipe.Ifq.{Ifq, push_back, front, pop_front}
use ysyx_np_sim.Pipe.Ifq.Queue.{Represents, push_back_refines, pop_front_refines}

-- The entries 7 and 8, in the slots 2 and 0.
abbrev two_entries : Ifq ℕ
two_entries = record { buf = some 8 ∷ none ∷ some 7 ∷ []; cap = 3; head = 2; tail = 1; cnt = 2 }

two_entries-Represents : Represents two_entries (7 ∷ 8 ∷ [])
two_entries-Represents = record {
  size = refl;
  head_in = omega arith;
  count = refl;
  fits = omega arith;
  next = refl;
  slots = held;
}
  where
    held :
        (i : ℕ) → i < 2 → get_elem? two_entries.buf ((2 + i) % 3) ≡ some (get_elem? (7 ∷ 8 ∷ []) i)
    held zero h = refl
    held (suc zero) h = refl
    held (suc (suc i)) h = absurd (omega arith)

push_back_refines_example :
    Returns (push_back two_entries 9) (λ q. Represents q (7 ∷ 8 ∷ 9 ∷ []) × (q.cap ≡ 3))
push_back_refines_example =
    push_back_refines two_entries (7 ∷ 8 ∷ []) 9 two_entries-Represents (omega arith)

pop_front_refines_example :
    (front two_entries ≡ some 7)
    × Returns (pop_front two_entries) (λ q. Represents q (8 ∷ []) × (q.cap ≡ 3))
pop_front_refines_example = pop_front_refines two_entries 7 (8 ∷ []) two_entries-Represents
