-- ===== src/Pipe/Ifq/Entry.antt =====
-- Changing one entry of the queue in its slot.
use ysyx_np_sim.Prelude.{
  ℕ, suc, ◌+◌, ◌<◌, ◌≡◌, ◌≢◌, refl, sym, ◌∙◌, ◌⊎◌, inl, inr, Bool, true, false, some, List, [], ◌∷◌,
  arith, if◌then◌else◌, length, length-set, get_elem?, set, get_elem?-set_self, get_elem?-set_ne,
}
use native.Mathlib.Decide.{dec_lt}
use ysyx_np_sim.Pipe.Ifq.{Ifq, slot_of}
use ysyx_np_sim.Pipe.Ifq.Queue.{Represents, slots-apart, slot_in}
use ysyx_np_sim.Pipe.Ifq.Find.{first_from}

same_or_not : (i j : ℕ) → (i ≡ j) ⊎ (i ≢ j)
same_or_not i j = elim (dec_lt i j) [
  | yes lt ↦ inr (λ e. omega arith)
  | no ge ↦ elim (dec_lt j i) [ yes lt ↦ inr (λ e. omega arith) | no ge' ↦ inl (omega arith) ]
]

module _ {A : Type 0} where
  -- A new value in the slot of entry `i`.
  pub set_entry :
      (q : Ifq A) (xs : List A) (i : ℕ) (x : A)
      → Represents q xs
      → i < length xs
      → Represents (record q { buf = set q.buf (slot_of q i) (some x) }) (set xs i x)
  set_entry q xs i x r h = record {
    size = length-set q.buf (slot_of q i) (some x) ∙ r.size;
    head_in = r.head_in;
    count = r.count ∙ sym (length-set xs i x);
    fits = omega (arith, r.fits, length-set xs i x);
    next = r.next;
    slots = λ j k. slot j (same_or_not i j) (omega (arith, length-set xs i x));
  }
    where
      apart : (j : ℕ) → i ≢ j → j < length xs → slot_of q i ≢ slot_of q j
      apart j ne k e = elim (dec_lt i j) [
        | yes lt ↦ slots-apart q.cap q.head i j r.head_in lt (omega (arith, r.fits)) e
        | no ge ↦
            slots-apart q.cap q.head j i r.head_in (omega arith) (omega (arith, r.fits)) (sym e)
      ]

      slot :
          (j : ℕ)
          → (i ≡ j) ⊎ (i ≢ j)
          → j < length xs
          → get_elem? (set q.buf (slot_of q i) (some x)) (slot_of q j)
            ≡ some (get_elem? (set xs i x) j)
      slot j (inl e) k =
          rw
            (
              sym e,
              get_elem?-set_self q.buf (slot_of q i) (some x) (slot_in q xs i r),
              get_elem?-set_self xs i x h,
            )
            refl
      slot j (inr ne) k =
          rw
            (
              get_elem?-set_ne q.buf (slot_of q i) (slot_of q j) (some x) (apart j ne k),
              get_elem?-set_ne xs i j x ne,
            )
            (r.slots j k)

  -- What `first_from` finds is an entry.
  pub first_from-entry :
      (p : A → Bool) (xs : List A) (k i : ℕ)
      → first_from p xs k ≡ some i
      → (j : ℕ) × (i ≡ k + j) × (j < length xs)
  first_from-entry p [] k i e = cc
  first_from-entry p (x ∷ xs) k i e = go (p x) e (λ l. first_from-entry p xs (k + 1) i l)
    where
      go :
          (b : Bool)
          → (if b then some k else first_from p xs (k + 1)) ≡ some i
          → (first_from p xs (k + 1) ≡ some i → (j : ℕ) × (i ≡ k + 1 + j) × (j < length xs))
          → (j : ℕ) × (i ≡ k + j) × (j < suc (length xs))
      go true e rest = let s : k ≡ i = cc in (0, omega arith, omega arith)
      go false e rest = let (j, s, lt) = rest e in (suc j, omega arith, omega arith)
