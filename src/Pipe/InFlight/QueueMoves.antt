-- ===== src/Pipe/InFlight/QueueMoves.antt =====
-- How instructions enter the core and pass through the fetch queue.
use ysyx_np_sim.Prelude.{
  ℕ, ◌+◌, ◌≡◌, ap, subst, true, false, Option, none, some, List, [], ◌∷◌, ◌++◌, All, arith, bit,
  incr,
}
use ysyx_np_sim.Pipe.Types.{Transaction, PerStage, fetch, put}
use ysyx_np_sim.Pipe.Ifq.{Ifq}
use ysyx_np_sim.Pipe.Ifq.Queue.{Represents}
use ysyx_np_sim.Pipe.InFlight.{
  Flow, weight, in_queue, IsFresh, RealSlot, in_queue-le, weight-le, in_queue-append, All-append,
  weight-counted,
}

module _ {i : Option Transaction} {q : Ifq Transaction} {p : PerStage (Option Transaction)}
    {n : ℕ} where
  -- A new entry of the queue, with the instruction of the input buffer or a placeholder.
  pub enqueued :
      {j : Option Transaction} {q' : Ifq Transaction}
      → (f : Flow i q p n) → (t : Transaction) → Represents q' (f.entries ++ (t ∷ []))
      → q'.cap ≡ q.cap
      → IsFresh t
      → RealSlot j
      → weight i ≡ weight j + bit t.counted_inflight
      → Flow j q' p n
  enqueued f t r cap fr real w = record {
    entries = f.entries ++ (t ∷ []);
    queue = r;
    fresh = All-append f.entries t f.fresh fr;
    fetch_fresh = f.fetch_fresh;
    input_real = real;
    decode_counted = f.decode_counted;
    execute_counted = f.execute_counted;
    mul_counted = f.mul_counted;
    div_counted = f.div_counted;
    memory_counted = f.memory_counted;
    number = omega (arith, f.number, in_queue-append f.entries t, w);
    room = omega (arith, f.room, cap);
  }

  -- The front entry enters the free Fetch slot.
  pub dequeued :
      {q' : Ifq Transaction} {ts : List Transaction}
      → (f : Flow i q p n) → (t : Transaction) → f.entries ≡ t ∷ ts
      → Represents q' ts
      → q'.cap ≡ q.cap
      → p.in_fetch ≡ none
      → Flow i q' (put fetch (some t) p) n
  dequeued {q'} {ts} f t e r cap free =
      let fresh : All IsFresh (t ∷ ts) = subst (All IsFresh) e f.fresh in
      record {
        entries = ts;
        queue = r;
        fresh = fresh.1;
        fetch_fresh = fresh.0;
        input_real = f.input_real;
        decode_counted = f.decode_counted;
        execute_counted = f.execute_counted;
        mul_counted = f.mul_counted;
        div_counted = f.div_counted;
        memory_counted = f.memory_counted;
        number = omega (arith, f.number, ap in_queue e, ap weight free);
        room = omega (arith, f.room, cap);
      }

  -- An instruction in the free input buffer.
  pub fed :
      Flow i q p n
      → (t : Transaction) → i ≡ none
      → (t.counted_inflight ≡ true) × (t.is_wrong_path ≡ false)
      → Flow (some t) q p (incr n)
  fed f t free real = record {
    entries = f.entries;
    queue = f.queue;
    fresh = f.fresh;
    fetch_fresh = f.fetch_fresh;
    input_real = real;
    decode_counted = f.decode_counted;
    execute_counted = f.execute_counted;
    mul_counted = f.mul_counted;
    div_counted = f.div_counted;
    memory_counted = f.memory_counted;
    number = omega (
      arith,
      f.number,
      f.room,
      f.queue.fits,
      ap weight free,
      weight-counted t real.0,
      in_queue-le f.entries,
      weight-le p.in_fetch,
      weight-le p.in_decode,
      weight-le p.in_execute,
      weight-le p.in_mul,
      weight-le p.in_div,
      weight-le p.in_memory,
    );
    room = f.room;
  }
