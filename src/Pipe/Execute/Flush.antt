-- ===== src/Pipe/Execute/Flush.antt =====
-- What the flush of the front end leaves.
use ysyx_np_sim.Prelude.{
  ℕ, suc, ◌+◌, ◌-◌, ◌^◌, ◌≤◌, ◌<◌, ◌≡◌, refl, ◌∙◌, ap, Bool, true, false, arith, Option, none, some,
  List, [], ◌∷◌, map, bit, if◌then◌else◌, length, get_elem?, u64, Returns, Returns-elim,
}
use ysyx_np_sim.Pipe.Types.{Transaction, sub64, put, fetch}
use ysyx_np_sim.Pipe.Ifq.{Ifq}
use ysyx_np_sim.Pipe.Ifq
use ysyx_np_sim.Pipe.Ifq.Queue.{Represents, at-entries, clear_refines}
use ysyx_np_sim.Pipe.Core.{Core}
use ysyx_np_sim.Pipe.InFlight.{InFlight, weight, in_queue, Flow-lt}
use ysyx_np_sim.Pipe.Execute.{discount, discount_from, flushed_fetch, flush_front}

discount-weight :
    (n : ℕ) (slot : Option Transaction)
    → weight slot ≤ n
    → n < 2 ^ 64
    → discount n slot ≡ n - weight slot
discount-weight n none h lt = omega arith
discount-weight n (some t) h lt = go t.counted_inflight h
  where
    go : (b : Bool) → bit b ≤ n → (if b then sub64 n 1 else n) ≡ n - bit b
    go true h = omega arith
    go false h = omega arith

discount_from-entries :
    (q : Ifq Transaction) (ts : List Transaction) (i n : ℕ)
    → ((j : ℕ) → j < length ts → Ifq.at q (i + j) ≡ some (get_elem? ts j))
    → in_queue ts ≤ n
    → n < 2 ^ 64
    → discount_from q i (length ts) n ≡ some (n - in_queue ts)
unfolding discount_from
discount_from-entries q [] i n h le lt = let e : n ≡ n - 0 = omega arith in ap some e
discount_from-entries q (t ∷ ts) i n h le lt =
    let first : Ifq.at q i ≡ some (some t) = ap (Ifq.at q) (zero_right i) ∙ h 0 (omega arith) in
    let e : discount n (some t) ≡ n - weight (some t) =
      discount-weight n (some t) (omega arith) lt in
    let rest =
      discount_from-entries q ts (i + 1) (n - weight (some t))
        (λ j k. ap (Ifq.at q) (moved i j) ∙ h (suc j) (omega arith)) (omega arith) (omega arith) in
    rw first (rw e rest ∙ ap some (left n (bit t.counted_inflight) (in_queue ts)))
  where
    zero_right : (n : ℕ) → n ≡ n + 0
    zero_right n = omega arith

    moved : (m n : ℕ) → m + 1 + n ≡ m + suc n
    moved m n = omega arith

    left : (a b c : ℕ) → a - b - c ≡ a - (b + c)
    left a b c = omega arith

-- The flush empties the queue and the Fetch slot and takes what counts there off
-- `ongoing_insts_`; every request in flight becomes an orphan.
pub record Flushed {P C : Type 0} (c : Core P C) (now : ℕ) (d : Core P C) : Type 0 where
  pub flow : InFlight d
  pub no_entries : Represents d.fetch_queue []
  pub pipe : d.sim_pipe ≡ put fetch none c.sim_pipe
  pub orphans : d.fetch_state.resp_is_orphan ≡ map (λ is_orphan. true) c.fetch_state.resp_is_orphan
  pub wrong_path_ends : d.fetch_state.wp_flushed ≡ true
  pub resumes : d.fetch_state.resume_tick ≡ u64 (now + 1)
  pub recovers : d.tally.stall.in_br_recovery ≡ true

-- The flush of a core whose count is right does not fault and leaves the count right, with nothing
-- in the queue and in Fetch, all requests in flight orphans, and the recovery under way.
pub flush_front-Flushed :
    {P C : Type 0} (c : Core P C) (now : ℕ)
    → InFlight c
    → Returns (flush_front c now) (Flushed c now)
unfolding flush_front flushed_fetch
flush_front-Flushed c now f =
    let q = c.fetch_queue in
    let n = c.ongoing_insts in
    let in_word : n < 2 ^ 64 = Flow-lt f in
    let e : discount_from q 0 q.cnt n ≡ some (n - in_queue f.entries) =
      ap (λ (k : ℕ). discount_from q 0 k n) f.queue.count
      ∙ discount_from-entries q f.entries 0 n
          (λ j k. ap (Ifq.at q) (zero_left j) ∙ at-entries q f.entries j f.queue k)
          (omega (arith, f.number)) in_word in
    let (q', eq, (r, cap)) = Returns-elim _ (Ifq.clear q) (clear_refines q f.entries f.queue) in
    let left : discount (n - in_queue f.entries) c.sim_pipe.in_fetch
        ≡ n - in_queue f.entries - weight c.sim_pipe.in_fetch =
      discount-weight _ c.sim_pipe.in_fetch (omega (arith, f.number)) (omega arith) in
    rw (e, eq)
      (record {
        flow = record {
          entries = [];
          queue = r;
          fresh = tt;
          fetch_fresh = tt;
          input_real = f.input_real;
          decode_counted = f.decode_counted;
          execute_counted = f.execute_counted;
          mul_counted = f.mul_counted;
          div_counted = f.div_counted;
          memory_counted = f.memory_counted;
          number = left ∙ omega (arith, f.number);
          room = omega (arith, f.room, cap);
        };
        no_entries = r;
        pipe = refl;
        orphans = refl;
        wrong_path_ends = refl;
        resumes = refl;
        recovers = refl;
      })
  where
    zero_left : (n : ℕ) → 0 + n ≡ n
    zero_left n = omega arith
