-- ===== src/Pipe/Ifq/Find.antt =====
-- The search in the instruction queue.
use ysyx_np_sim.Prelude.{
  ℕ, suc, ◌+◌, ◌<◌, ◌≡◌, refl, ◌∙◌, ap, Bool, true, false, Option, none, some, List, [], ◌∷◌, arith,
  if◌then◌else◌, length, get_elem?,
}
use ysyx_np_sim.Pipe.Ifq.{Ifq, slot_of, at, find_from, find_if_ptr}
use ysyx_np_sim.Pipe.Ifq.Queue.{Represents}

module _ {A : Type 0} where
  -- The number of the first entry that satisfies the predicate, counted from `i` on.
  abbrev pub first_from : (A → Bool) → List A → ℕ → Option ℕ
  first_from p [] i = none
  first_from p (x ∷ xs) i = if p x then some i else first_from p xs (i + 1)

  abbrev pub slot_of? : Ifq A → Option ℕ → Option ℕ
  slot_of? q none = none
  slot_of? q (some i) = some (slot_of q i)

  find_from-first :
      (p : A → Bool) (q : Ifq A) (xs : List A) (i : ℕ)
      → ((j : ℕ) → j < length xs → at q (i + j) ≡ some (get_elem? xs j))
      → find_from p q i (length xs) ≡ some (slot_of? q (first_from p xs i))
  unfolding find_from
  find_from-first p q [] i h = refl
  find_from-first p q (x ∷ xs) i h =
      rw (first, find_from-first p q xs (i + 1) (λ j k. rest j k)) (here (p x))
    where
      first : at q i ≡ some (some x)
      first = ap (at q) (zero_right i) ∙ h 0 (omega arith)
        where
          zero_right : (n : ℕ) → n ≡ n + 0
          zero_right n = omega arith

      rest : (j : ℕ) → j < length xs → at q (i + 1 + j) ≡ some (get_elem? xs j)
      rest j k = ap (at q) (sum i j) ∙ h (suc j) (omega arith)
        where
          sum : (m n : ℕ) → m + 1 + n ≡ m + suc n
          sum m n = omega arith

      here :
          (b : Bool)
          → (if b then some (some (slot_of q i)) else some (slot_of? q (first_from p xs (i + 1))))
            ≡ some (slot_of? q (if b then some i else first_from p xs (i + 1)))
      here true = refl
      here false = refl

  -- `find_if_ptr` finds the oldest entry that satisfies the predicate.
  pub find_if_ptr-first :
      (p : A → Bool) (q : Ifq A) (xs : List A)
      → Represents q xs
      → find_if_ptr p q ≡ some (slot_of? q (first_from p xs 0))
  unfolding find_if_ptr at
  find_if_ptr-first p q xs r =
      ap (find_from p q 0) r.count
      ∙ find_from-first p q xs 0 (λ j k. ap (at q) (zero_left j) ∙ r.slots j k)
    where
      zero_left : (n : ℕ) → 0 + n ≡ n
      zero_left n = omega arith
