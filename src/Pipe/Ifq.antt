-- ===== src/Pipe/Ifq.antt =====
-- pipeSim/Pipeline.hh: `IFQRingBuf`, over any type of entry. A null pointer is an empty slot; `none`
-- is a failed assertion, a null pointer that is followed, or an access out of range.
pub mod Queue
pub mod Find
pub mod Entry
mod Tests
use ysyx_np_sim.Prelude.{
  ℕ, zero, suc, ◌+◌, ◌-◌, ◌%◌, Bool, not, Option, none, some, List, ◌>>=◌, ◌>>◌, assert,
  if◌then◌else◌, leb, ◌==◌, get_elem?, set_at, replicate,
}

pub record Ifq (A : Type 0) : Type 0 where
  pub buf : List (Option A)
  pub cap : ℕ
  pub head : ℕ
  pub tail : ℕ
  pub cnt : ℕ

module _ {A : Type 0} where
  unfoldable pub init : ℕ → Ifq A
  init cap = record { buf = replicate cap none; cap = cap; head = 0; tail = 0; cnt = 0 }

  abbrev pub empty : Ifq A → Bool
  empty q = q.cnt == 0

  abbrev pub full : Ifq A → Bool
  full q = leb q.cap q.cnt

  pub push_back : Ifq A → A → Option (Ifq A)
  push_back q a = do
    assert (not (full q))
    buf ← set_at q.buf q.tail (some a)
    some (record q { buf = buf; tail = (q.tail + 1) % q.cap; cnt = q.cnt + 1 })

  -- The entry that the front points at.
  pub front : Ifq A → Option A
  front q = do assert (not (empty q)); slot ← get_elem? q.buf q.head; slot

  pub pop_front : Ifq A → Option (Ifq A)
  pop_front q = do
    assert (not (empty q))
    buf ← set_at q.buf q.head none
    some (record q { buf = buf; head = (q.head + 1) % q.cap; cnt = q.cnt - 1 })

  -- The slot number of entry `i`.
  abbrev pub slot_of : Ifq A → ℕ → ℕ
  slot_of q i = (q.head + i) % q.cap

  -- `at(i)`, which may be null
  pub at : Ifq A → ℕ → Option (Option A)
  at q i = get_elem? q.buf (slot_of q i)

  -- `n` slots reset from entry `i` on.
  pub reset_from : Ifq A → List (Option A) → ℕ → ℕ → Option (List (Option A))
  reset_from q buf i zero = some buf
  reset_from q buf i (suc n) = do buf' ← set_at buf (slot_of q i) none; reset_from q buf' (i + 1) n

  pub clear : Ifq A → Option (Ifq A)
  unfolding reset_from
  clear q = do
    buf ← reset_from q q.buf 0 q.cnt
    some (record q { buf = buf; head = 0; tail = 0; cnt = 0 })

  -- The first of `n` entries from entry `i` on that satisfies the predicate, as a slot number.
  pub find_from : (A → Bool) → Ifq A → ℕ → ℕ → Option (Option ℕ)
  unfolding at
  find_from p q i zero = some none
  find_from p q i (suc n) = do
    slot ← at q i
    e ← slot
    let rest = find_from p q (i + 1) n
    if p e then some (some (slot_of q i)) else rest

  -- `find_if_ptr`
  pub find_if_ptr : (A → Bool) → Ifq A → Option (Option ℕ)
  unfolding find_from
  find_if_ptr p q = find_from p q 0 q.cnt
