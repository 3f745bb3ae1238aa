-- ===== src/Pipe/InFlight/Slots.antt =====
-- Instructions that change in their place.
use ysyx_np_sim.Prelude.{
  ℕ, zero, suc, ◌+◌, ◌≡◌, refl, sym, ◌∙◌, ap, subst, Option, some, List, [], ◌∷◌, arith, bit,
  get_elem?, set, All-set, get_elem?-lt,
}
use ysyx_np_sim.Pipe.Types.{Transaction, PerStage, execute, put}
use ysyx_np_sim.Pipe.Ifq.{Ifq, slot_of}
use ysyx_np_sim.Pipe.Ifq.Entry.{set_entry}
use ysyx_np_sim.Pipe.InFlight.{Flow, IsFresh, CountedSlot, weight, in_queue}

in_queue-set :
    (ts : List Transaction) (i : ℕ) (t u : Transaction)
    → get_elem? ts i ≡ some t
    → u.counted_inflight ≡ t.counted_inflight
    → in_queue (set ts i u) ≡ in_queue ts
in_queue-set [] i t u e k = refl
in_queue-set (x ∷ ts) zero t u e k =
    let same : x ≡ t = cc in
    ap (λ (n : ℕ). n + in_queue ts)
      (ap bit k ∙ ap (λ (y : Transaction). bit y.counted_inflight) (sym same))
in_queue-set (x ∷ ts) (suc i) t u e k =
    ap (λ (n : ℕ). bit x.counted_inflight + n) (in_queue-set ts i t u e k)

module _ {i : Option Transaction} {q : Ifq Transaction} {p : PerStage (Option Transaction)}
    {n : ℕ} where
  pub set_queued :
      (f : Flow i q p n) (k : ℕ) (t u : Transaction)
      → get_elem? f.entries k ≡ some t
      → u.counted_inflight ≡ t.counted_inflight
      → IsFresh u
      → Flow i (record q { buf = set q.buf (slot_of q k) (some u) }) p n
  set_queued f k t u e c fr = record {
    entries = set f.entries k u;
    queue = set_entry q f.entries k u f.queue (get_elem?-lt f.entries k e);
    fresh = All-set IsFresh f.entries k u f.fresh fr;
    fetch_fresh = f.fetch_fresh;
    input_real = f.input_real;
    decode_counted = f.decode_counted;
    execute_counted = f.execute_counted;
    mul_counted = f.mul_counted;
    div_counted = f.div_counted;
    memory_counted = f.memory_counted;
    number = omega (arith, f.number, in_queue-set f.entries k t u e c);
    room = f.room;
  }

  pub set_executed :
      Flow i q p n
      → (t u : Transaction) → p.in_execute ≡ some t
      → u.counted_inflight ≡ t.counted_inflight
      → Flow i q (put execute (some u) p) n
  set_executed f t u e c = record {
    entries = f.entries;
    queue = f.queue;
    fresh = f.fresh;
    fetch_fresh = f.fetch_fresh;
    input_real = f.input_real;
    decode_counted = f.decode_counted;
    execute_counted = c ∙ subst CountedSlot e f.execute_counted;
    mul_counted = f.mul_counted;
    div_counted = f.div_counted;
    memory_counted = f.memory_counted;
    number = omega (arith, f.number, ap weight e, ap bit c);
    room = f.room;
  }
