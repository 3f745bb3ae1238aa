-- ===== src/Pipe/Ifq/Queue.antt =====
-- `IFQRingBuf` is a queue of at most `capacity` entries.
use ysyx_np_sim.Prelude.{
  length-replicate, ◌>>=◌, ◌>>◌, assert, not, ◌==◌, ℕ, zero, suc, ◌+◌, ◌-◌, ◌%◌, ◌≤◌, ◌<◌, ◌≡◌, ◌≢◌,
  refl, sym, ◌∙◌, ap, ◌⊎◌, inl, inr, Bool, true, false, Option, none, some, List, [], ◌∷◌, ◌++◌,
  arith, leb, ◌==◌, length, length-set, length-append, get_elem?, set, get_elem?-set_self,
  get_elem?-set_ne, set_at_of_lt, Returns, Returns-elim,
}
use native.Mathlib.Nat.{mod-eq_of_lt, mod-lt, mod-eq-sub-mod, mod-add-mod}
use native.Mathlib.Decide.{dec_lt}
use ysyx_np_sim.Pipe.Ifq.{init, Ifq, push_back, front, pop_front, slot_of, at, reset_from, clear}

-- The sum of two numbers of a ring of `c` slots.
wrap_cases :
    (c h i : ℕ)
    → h < c
    → i ≤ c
    → (((h + i) % c ≡ h + i) × (h + i < c)) ⊎ (((h + i) % c ≡ h + i - c) × (c ≤ h + i))
wrap_cases c h i hc ic = elim (dec_lt (h + i) c) [
  | yes p ↦ inl (mod-eq_of_lt p, p)
  | no p ↦
      let le : c ≤ h + i = omega arith in inr (mod-eq-sub-mod le ∙ mod-eq_of_lt (omega arith), le)
]

-- Two of the `c` slots from `h` on are one only if their numbers are.
pub slots-apart : (c h i j : ℕ) → h < c → i < j → j < c → (h + i) % c ≢ (h + j) % c
slots-apart c h i j hc ij jc e = ground (arith, wrap_cases c h i hc, wrap_cases c h j hc)

module _ {A : Type 0} where
  -- The entries of the queue, the oldest first.
  pub record Represents (q : Ifq A) (xs : List A) : Type 0 where
    pub size : length q.buf ≡ q.cap
    pub head_in : q.head < q.cap
    pub count : q.cnt ≡ length xs
    pub fits : length xs ≤ q.cap
    pub next : q.tail ≡ (q.head + q.cnt) % q.cap
    pub slots : (i : ℕ) → i < length xs → get_elem? q.buf (slot_of q i) ≡ some (get_elem? xs i)

  pub at-entries :
      (q : Ifq A) (xs : List A) (i : ℕ)
      → Represents q xs
      → i < length xs
      → at q i ≡ some (get_elem? xs i)
  unfolding at
  at-entries q xs i r h = r.slots i h

  get_elem?-append_left :
      (xs : List A) (a : A) (i : ℕ) → i < length xs → get_elem? (xs ++ (a ∷ [])) i ≡ get_elem? xs i
  get_elem?-append_left [] a i h = absurd (omega arith)
  get_elem?-append_left (x ∷ xs) a zero h = refl
  get_elem?-append_left (x ∷ xs) a (suc i) h = get_elem?-append_left xs a i (omega arith)

  get_elem?-append_last : (xs : List A) (a : A) → get_elem? (xs ++ (a ∷ [])) (length xs) ≡ some a
  get_elem?-append_last [] a = refl
  get_elem?-append_last (x ∷ xs) a = get_elem?-append_last xs a

  pub slot_in : (q : Ifq A) (xs : List A) (i : ℕ) → Represents q xs → slot_of q i < length q.buf
  slot_in q xs i r = rw (r.size) (mod-lt (q.head + i) (omega (arith, r.head_in)))

  -- A queue with room takes one more entry at its end.
  pub push_back_refines :
      (q : Ifq A) (xs : List A) (a : A)
      → Represents q xs
      → length xs < q.cap
      → Returns (push_back q a) (λ q'. Represents q' (xs ++ (a ∷ [])) × (q'.cap ≡ q.cap))
  unfolding push_back
  push_back_refines q xs a r h =
      let room : leb q.cap q.cnt ≡ false = ground (arith, r.count) in
      let at_tail : q.tail < length q.buf = rw (r.next) (slot_in q xs q.cnt r) in
      rw (room, set_at_of_lt q.buf q.tail (some a) at_tail)
        (
          record {
            size = length-set q.buf q.tail (some a) ∙ r.size;
            head_in = r.head_in;
            count = omega (arith, length-append xs (a ∷ []), r.count);
            fits = omega (arith, length-append xs (a ∷ []));
            next = rw (r.next) (
                mod-add-mod (q.head + q.cnt) q.cap 1
                ∙ ap (λ (n : ℕ). n % q.cap) (sum q.head q.cnt));
            slots = λ i k. push_slot i (dec_lt i (length xs)) k;
          },
          refl,
        )
    where
      sum : (m n : ℕ) → m + n + 1 ≡ m + (n + 1)
      sum m n = omega arith

      push_slot :
          (i : ℕ)
          → Dec (i < length xs)
          → i < length (xs ++ (a ∷ []))
          → get_elem? (set q.buf q.tail (some a)) (slot_of q i)
            ≡ some (get_elem? (xs ++ (a ∷ [])) i)
      push_slot i (yes p) k =
          rw
            (
              get_elem?-append_left xs a i p,
              get_elem?-set_ne q.buf q.tail (slot_of q i) (some a) (λ e. other i p e),
            )
            (r.slots i p)
        where
          other : (i : ℕ) → i < length xs → q.tail ≡ slot_of q i → ⊥
          other i p e =
              slots-apart q.cap q.head i q.cnt (r.head_in) (omega (arith, r.count))
                (omega (arith, r.count)) (sym e ∙ r.next)
      push_slot i (no p) k =
          let last : i ≡ length xs = omega (arith, length-append xs (a ∷ [])) in
          let here : slot_of q i ≡ q.tail =
            ap (λ (n : ℕ). (q.head + n) % q.cap) (last ∙ sym r.count) ∙ sym r.next in
          rw
            (
              here,
              get_elem?-set_self q.buf q.tail (some a) (rw (r.next) (slot_in q xs q.cnt r)),
              last,
              get_elem?-append_last xs a,
            )
            refl

  -- The oldest entry is at the front, and `pop_front` removes it.
  pub pop_front_refines :
      (q : Ifq A) (x : A) (xs : List A)
      → Represents q (x ∷ xs)
      → (front q ≡ some x) × Returns (pop_front q) (λ q'. Represents q' xs × (q'.cap ≡ q.cap))
  unfolding front pop_front
  pop_front_refines q x xs r =
      let full : (q.cnt == 0) ≡ false = ground (arith, r.count) in
      let at_head : q.head < length q.buf = rw (r.size) r.head_in in
      let here : q.head ≡ slot_of q 0 =
        sym (ap (λ (n : ℕ). n % q.cap) (zero_right q.head) ∙ mod-eq_of_lt r.head_in) in
      let e : get_elem? q.buf q.head ≡ some (some x) =
        ap (get_elem? q.buf) here ∙ r.slots 0 (omega arith) in
      (
        rw (full, e) refl,
        rw (full, set_at_of_lt q.buf q.head none at_head)
            (
              record {
                size = length-set q.buf q.head none ∙ r.size;
                head_in = mod-lt (q.head + 1) (omega (arith, r.head_in));
                count = omega (arith, r.count);
                fits = omega (arith, r.fits);
                next =
                    r.next
                    ∙ ap (λ (n : ℕ). (q.head + n) % q.cap) (omega (arith, r.count))
                    ∙ sym (moved (q.cnt - 1));
                slots = λ i k.
                    rw
                      (
                        moved i,
                        get_elem?-set_ne q.buf q.head (slot_of q (suc i)) none (λ c.
                            slots-apart q.cap q.head 0 (suc i) (r.head_in) (omega arith)
                              (omega (arith, r.fits)) (sym here ∙ c)),
                      )
                      (r.slots (suc i) (omega arith));
              },
              refl,
            ),
      )
    where
      zero_right : (n : ℕ) → n + 0 ≡ n
      zero_right n = omega arith

      moved : (i : ℕ) → ((q.head + 1) % q.cap + i) % q.cap ≡ (q.head + suc i) % q.cap
      moved i = mod-add-mod (q.head + 1) q.cap i ∙ ap (λ (n : ℕ). n % q.cap) (sum q.head i)
        where
          sum : (m n : ℕ) → m + 1 + n ≡ m + suc n
          sum m n = omega arith

  reset_from-size :
      (q : Ifq A) (n i : ℕ) (buf : List (Option A))
      → 0 < q.cap
      → length buf ≡ q.cap
      → Returns (reset_from q buf i n) (λ buf'. length buf' ≡ q.cap)
  unfolding reset_from
  reset_from-size q zero i buf h e = e
  reset_from-size q (suc n) i buf h e =
      let lt : slot_of q i < length buf = rw e (mod-lt (q.head + i) h) in
      rw (set_at_of_lt buf (slot_of q i) none lt) (
        reset_from-size q n (i + 1) (set buf (slot_of q i) none) h
          (length-set buf (slot_of q i) none ∙ e))

  -- `clear` leaves an empty queue.
  pub clear_refines :
      (q : Ifq A) (xs : List A)
      → Represents q xs
      → Returns (clear q) (λ q'. Represents q' [] × (q'.cap ≡ q.cap))
  unfolding clear
  clear_refines q xs r =
      let pos : 0 < q.cap = omega (arith, r.head_in) in
      let (buf, e, size) =
        Returns-elim _ (reset_from q q.buf 0 q.cnt) (reset_from-size q q.cnt 0 q.buf pos r.size) in
      rw e (
        record {
          size = size;
          head_in = pos;
          count = refl;
          fits = omega arith;
          next = sym (mod-eq_of_lt pos);
          slots = λ i k. absurd (omega arith);
        },
        refl,
      )

  pub head_slot : (q : Ifq A) (xs : List A) → Represents q xs → q.head ≡ slot_of q 0
  head_slot q xs r = sym (ap (λ (n : ℕ). n % q.cap) (zero_right q.head) ∙ mod-eq_of_lt r.head_in)
    where
      zero_right : (n : ℕ) → n + 0 ≡ n
      zero_right n = omega arith

  no-front : (b : Bool) (m : Option A) (t : A) → b ≡ true → (assert (not b) >> m) ≡ some t → ⊥
  no-front true m t h e = cc
  no-front false m t h e = cc

  -- A queue with a front has entries.
  pub front-entries :
      (q : Ifq A) (xs : List A) (t : A)
      → Represents q xs
      → front q ≡ some t
      → (ts : List A) × (xs ≡ t ∷ ts)
  unfolding front
  front-entries q [] t r e =
      let empty : (q.cnt == 0) ≡ true = ground (arith, r.count) in
      absurd (no-front (q.cnt == 0) (get_elem? q.buf q.head >>= λ slot. slot) t empty e)
  front-entries q (x ∷ xs) t r e =
      let same : x ≡ t = some-same x t (sym (pop_front_refines q x xs r).0 ∙ e) in
      (xs, ap (λ (y : A). y ∷ xs) same)
    where
      some-same : (x t : A) → some x ≡ some t → x ≡ t
      some-same x t e = cc

  pub init-Represents : (size : ℕ) → 0 < size → Represents (init size) []
  unfolding init
  init-Represents size h = record {
    size = length-replicate size none;
    head_in = h;
    count = refl;
    fits = omega arith;
    next = sym (mod-eq_of_lt h);
    slots = λ i k. absurd (omega arith);
  }
