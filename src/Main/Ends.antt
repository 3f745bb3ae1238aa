-- ===== src/Main/Ends.antt =====
-- The simulation loop of main.cc ends.
use ysyx_np_sim.Prelude.{
  ℕ, ◌+◌, ◌^◌, ◌≤◌, ◌<◌, max, zero, suc, ◌≡◌, refl, Bool, true, false, Option, none, some, List, [],
  ◌∷◌, arith, Ensures, Ensures-bind, Ensures-if, Ensures-all, Ensures-elim,
}
use ysyx_np_sim.Trace.{TraceInst}
use ysyx_np_sim.Main.{
  Machine, Loop, update_all, feed_next, feed, serve, next_tick, step, run, Run, ended, faulted,
  running, wants_next, is_over,
}
use ysyx_np_sim.Main.Feed.{Served, serve-Served}

module _ {M : Type 0} (api : Machine M) where
  feed-tick : (max_insts : ℕ) (l : Loop M) → Ensures (feed api max_insts l) (λ k. k.tick ≡ l.tick)
  unfolding feed
  feed-tick max_insts l =
      let Q : Loop M → Type 0 = λ k. k.tick ≡ l.tick in
      Ensures-if Q (api.inst_avail l.machine) _ _
        (λ _.
          Ensures-if Q (wants_next max_insts l) (feed_next api l l.trace) _ (λ _. next l.trace)
            (λ _. refl))
        (λ _. refl)
    where
      next : (ts : List TraceInst) → Ensures (feed_next api l ts) (λ k. k.tick ≡ l.tick)
      next [] = refl
      next (t ∷ ts) =
          Ensures-bind (λ k. k.tick ≡ l.tick) (api.feed_inst l.machine t l.tick) _ (λ m e. refl)

  next_tick-suc : (t u : ℕ) → t < 2 ^ 64 → next_tick t ≡ some u → (u ≡ t + 1) × (u < 2 ^ 64)
  unfolding next_tick
  next_tick-suc t u h e = ground arith

  -- A round takes one tick.
  step-tick :
      (max_insts : ℕ) (l : Loop M)
      → l.tick < 2 ^ 64
      → Ensures (step api max_insts l) (λ k. (k.tick ≡ l.tick + 1) × (k.tick < 2 ^ 64))
  unfolding step
  step-tick max_insts l h =
      let Q : Loop M → Type 0 = λ k. (k.tick ≡ l.tick + 1) × (k.tick < 2 ^ 64) in
      Ensures-bind Q (update_all api l.machine l.tick) _ (λ m e.
        let l0 = record l { machine = m } in
        Ensures-bind Q (feed api max_insts l0) _ (λ l1 e1.
          let s1 : l1.tick ≡ l.tick = Ensures-elim _ _ l1 (feed-tick max_insts l0) e1 in
          Ensures-bind Q (next_tick l1.tick) _ (λ t e2.
            let s2 = next_tick-suc l1.tick t (omega arith) e2 in
            let l2 = record l1 { tick = t } in
            Ensures-all {Q = Q} (serve api l2) (λ k e3.
              let s3 = (Ensures-elim (Served api l2) _ k (serve-Served api l2) e3).1 in
              (omega arith, omega arith)))))

  -- The loop's own test has ended it, at a later tick, which is `max_ticks` at most where a round
  -- was needed at all.
  abbrev pub EndsBy : ℕ → ℕ → Run M → Type 0
  EndsBy max_ticks tick (ended k) =
      (is_over api max_ticks k ≡ true) × (tick < k.tick) × (k.tick ≤ max max_ticks (tick + 1))
  EndsBy max_ticks tick faulted = Unit
  EndsBy max_ticks tick (running k) = ⊥

  later :
      (max_ticks tick next : ℕ) (r : Run M)
      → next ≡ tick + 1
      → next < max_ticks
      → EndsBy max_ticks next r
      → EndsBy max_ticks tick r
  later max_ticks tick next (ended k) e lt h = (h.0, omega (arith, h.1), omega (arith, h.2))
  later max_ticks tick next faulted e lt h = tt
  later max_ticks tick next (running k) e lt h = h

  -- One round, and the rounds to come if the test asks for them.
  round_ends :
      (max_ticks tick : ℕ) (rest : Loop M → Run M) (o : Option (Loop M))
      → Ensures o (λ k. (k.tick ≡ tick + 1) × (k.tick < 2 ^ 64))
      → ((k : Loop M)
          → k.tick ≡ tick + 1
          → k.tick < 2 ^ 64
          → k.tick < max_ticks
          → EndsBy max_ticks k.tick (rest k))
      → EndsBy max_ticks tick (elim o [
        | none ↦ faulted
        | some k ↦ elim (is_over api max_ticks k) [ true ↦ ended k | false ↦ rest k ]
      ])
  round_ends max_ticks tick rest none h again = tt
  round_ends max_ticks tick rest (some k) h again = tested (is_over api max_ticks k) refl
    where
      tested :
          (b : Bool)
          → is_over api max_ticks k ≡ b
          → EndsBy max_ticks tick (elim b [ true ↦ ended k | false ↦ rest k ])
      tested true e = (e, omega (arith, h.0), omega (arith, h.0))
      tested false e =
          let lt : k.tick < max_ticks = ground arith in
          later max_ticks tick k.tick (rest k) h.0 lt (again k h.0 h.1 lt)

  -- The loop takes no more rounds than `max_ticks` has ticks left, and one at least: with so many
  -- rounds allowed, it ends by its own test or by a failed assertion.
  pub run-ends :
      (max_insts max_ticks rounds : ℕ) (l : Loop M)
      → l.tick < 2 ^ 64
      → max_ticks ≤ l.tick + suc rounds
      → EndsBy max_ticks l.tick (run api max_insts max_ticks (suc rounds) l)
  unfolding run
  run-ends max_insts max_ticks zero l small h =
      round_ends max_ticks l.tick (λ k. run api max_insts max_ticks 0 k) (step api max_insts l)
        (step-tick max_insts l small) (λ k e s lt. absurd (omega arith))
  run-ends max_insts max_ticks (suc rounds) l small h =
      round_ends max_ticks l.tick (λ k. run api max_insts max_ticks (suc rounds) k)
        (step api max_insts l) (step-tick max_insts l small)
        (λ k e s lt. run-ends max_insts max_ticks rounds k s (omega arith))
