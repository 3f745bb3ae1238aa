-- ===== src/Pipe/InFlight.antt =====
-- The instructions in the core, against `ongoing_insts_`: what is counted, and how it moves.

pub mod Slots
pub mod Moves
pub mod QueueMoves
use ysyx_np_sim.Prelude.{
  ℕ, ◌+◌, ◌^◌, ◌≤◌, ◌<◌, ◌≡◌, refl, sym, ◌∙◌, ap, subst, Bool, true, false, not, Option, none, some,
  List, [], ◌∷◌, ◌++◌, All, arith, bit, length, incr,
}
use ysyx_np_sim.Pipe.Types.{
  Transaction, PipeStage, PerStage, fetch, decode, execute, int_mul_ext, int_div_ext, memory, put,
  get, sub64,
}
use ysyx_np_sim.Pipe.Ifq.{Ifq}
use ysyx_np_sim.Pipe.Ifq.Queue.{Represents}
use ysyx_np_sim.Pipe.Core.{Core, present}

-- 1 for an instruction that counts.
abbrev pub weight : Option Transaction → ℕ
weight none = 0
weight (some t) = bit t.counted_inflight

abbrev pub in_queue : List Transaction → ℕ
in_queue [] = 0
in_queue (t ∷ ts) = bit t.counted_inflight + in_queue ts

-- The slot of WriteBack is never filled.
abbrev pub in_pipe : PerStage (Option Transaction) → ℕ
in_pipe p =
    weight p.in_fetch
    + weight p.in_decode
    + weight p.in_execute
    + weight p.in_mul
    + weight p.in_div
    + weight p.in_memory

-- Placeholders of a wrong path do not count, and all else does.
abbrev pub IsFresh : Transaction → Type 0
IsFresh t = t.counted_inflight ≡ not t.is_wrong_path

abbrev pub FreshSlot : Option Transaction → Type 0
FreshSlot none = Unit
FreshSlot (some t) = IsFresh t

abbrev pub RealSlot : Option Transaction → Type 0
RealSlot none = Unit
RealSlot (some t) = (t.counted_inflight ≡ true) × (t.is_wrong_path ≡ false)

-- Past Decode there are only instructions that count.
abbrev pub CountedSlot : Option Transaction → Type 0
CountedSlot none = Unit
CountedSlot (some t) = t.counted_inflight ≡ true

-- The number of instructions in the input buffer, the queue and the stages.
pub record Flow (input : Option Transaction) (q : Ifq Transaction)
    (p : PerStage (Option Transaction)) (ongoing : ℕ) : Type 0 where
  pub entries : List Transaction
  pub queue : Represents q entries
  pub fresh : All IsFresh entries
  pub fetch_fresh : FreshSlot p.in_fetch
  pub input_real : RealSlot input
  pub decode_counted : CountedSlot p.in_decode
  pub execute_counted : CountedSlot p.in_execute
  pub mul_counted : CountedSlot p.in_mul
  pub div_counted : CountedSlot p.in_div
  pub memory_counted : CountedSlot p.in_memory
  pub number : ongoing ≡ weight input + in_queue entries + in_pipe p
  pub room : q.cap + 8 < 2 ^ 64

-- `ongoing_insts_` is that number.
abbrev pub InFlight : {P C : Type 0} → Core P C → Type 0
InFlight c = Flow c.input_buffer c.fetch_queue c.sim_pipe c.ongoing_insts

pub weight-le : (slot : Option Transaction) → weight slot ≤ 1
weight-le none = omega arith
weight-le (some t) = go t.counted_inflight
  where
    go : (b : Bool) → bit b ≤ 1
    go true = omega arith
    go false = omega arith

pub in_queue-le : (ts : List Transaction) → in_queue ts ≤ length ts
in_queue-le [] = omega arith
in_queue-le (t ∷ ts) = omega (arith, weight-le (some t), in_queue-le ts)

pub in_queue-append :
    (ts : List Transaction) (t : Transaction)
    → in_queue (ts ++ (t ∷ [])) ≡ in_queue ts + bit t.counted_inflight
in_queue-append [] t = omega arith
in_queue-append (u ∷ ts) t = omega (arith, in_queue-append ts t)

pub All-append :
    (ts : List Transaction) (t : Transaction)
    → All IsFresh ts
    → IsFresh t
    → All IsFresh (ts ++ (t ∷ []))
All-append [] t h k = (k, tt)
All-append (u ∷ ts) t h k = (h.0, All-append ts t h.1 k)

pub not-present : (slot : Option Transaction) → not (present slot) ≡ true → slot ≡ none
not-present none e = refl
not-present (some t) e = cc

pub weight-counted : (t : Transaction) → t.counted_inflight ≡ true → weight (some t) ≡ 1
weight-counted t e = ap bit e

module _ {i : Option Transaction} {q : Ifq Transaction} {p : PerStage (Option Transaction)}
    {n : ℕ} where
  -- There is room for one more in a machine word.
  pub Flow-room : Flow i q p n → n + 1 < 2 ^ 64
  Flow-room f = omega (
    arith,
    f.number,
    f.room,
    f.queue.fits,
    in_queue-le f.entries,
    weight-le i,
    weight-le p.in_fetch,
    weight-le p.in_decode,
    weight-le p.in_execute,
    weight-le p.in_mul,
    weight-le p.in_div,
    weight-le p.in_memory,
  )

  -- The number of instructions in the core is a machine word.
  pub Flow-lt : Flow i q p n → n < 2 ^ 64
  Flow-lt f = omega (arith, Flow-room f)
