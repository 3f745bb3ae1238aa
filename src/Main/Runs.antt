-- ===== src/Main/Runs.antt =====
-- The simulation loop of main.cc over all its rounds.
use ysyx_np_sim.Prelude.{
  ℕ, ◌^◌, ◌<◌, zero, suc, ◌≡◌, refl, sym, inl, Bool, true, false, Option, none, some, List, [],
  arith, Ensures, Ensures-elim,
}
use ysyx_np_sim.Trace.{TraceInst}
use ysyx_np_sim.Trace.Counts.{tallies}
use ysyx_np_sim.Main.{Machine, Loop, step, start, run, Run, ended, faulted, running, is_over}
use mathlib.Core.List.{append-nil}
use ysyx_np_sim.Main.Fed.{Feeds}
use ysyx_np_sim.Main.Feed.{Progress, step-Progress}
use ysyx_np_sim.Main.Stops.{Stops, step-Stops}

-- However the loop ends, what it has come to has the property.
abbrev pub RunEnsures : {M : Type 0} → (Loop M → Type 0) → Run M → Type 0
RunEnsures P (ended l) = P l
RunEnsures P faulted = Unit
RunEnsures P (running l) = P l

-- Where the loop's own test ends it, the property holds.
abbrev pub Ended : {M : Type 0} → Machine M → ℕ → (Loop M → Type 0) → Run M → Type 0
Ended api max_ticks Q (ended k) = (is_over api max_ticks k ≡ true) × Q k
Ended api max_ticks Q faulted = Unit
Ended api max_ticks Q (running k) = Unit

module _ {M : Type 0} (api : Machine M) where
  -- The test after one round, then the rounds to come.
  round_inv :
      (P : Loop M → Type 0) (max_ticks : ℕ) (rest : Loop M → Run M) (o : Option (Loop M))
      → Ensures o P
      → ((k : Loop M) → P k → RunEnsures P (rest k))
      → RunEnsures P (elim o [
        | none ↦ faulted
        | some k ↦ elim (is_over api max_ticks k) [ true ↦ ended k | false ↦ rest k ]
      ])
  round_inv P max_ticks rest none h again = tt
  round_inv P max_ticks rest (some k) h again = tested (is_over api max_ticks k)
    where
      tested : (b : Bool) → RunEnsures P (elim b [ true ↦ ended k | false ↦ rest k ])
      tested true = h
      tested false = again k h

  -- The invariant rule of the loop.
  pub run_inv :
      (P : Loop M → Type 0) (max_insts max_ticks rounds : ℕ) (l : Loop M)
      → ((k : Loop M) → P k → Ensures (step api max_insts k) P)
      → P l
      → RunEnsures P (run api max_insts max_ticks rounds l)
  unfolding run
  run_inv P max_insts max_ticks zero l keep p = p
  run_inv P max_insts max_ticks (suc rounds) l keep p =
      round_inv P max_ticks (λ k. run api max_insts max_ticks rounds k) (step api max_insts l)
        (keep l p) (λ k q. run_inv P max_insts max_ticks rounds k keep q)

  -- What the test finds after one round, or after those to come.
  round_ended :
      (Q : Loop M → Type 0) (max_ticks : ℕ) (rest : Loop M → Run M) (o : Option (Loop M))
      → Ensures o Q
      → ((k : Loop M) → o ≡ some k → Ended api max_ticks Q (rest k))
      → Ended api max_ticks Q (elim o [
        | none ↦ faulted
        | some k ↦ elim (is_over api max_ticks k) [ true ↦ ended k | false ↦ rest k ]
      ])
  round_ended Q max_ticks rest none h again = tt
  round_ended Q max_ticks rest (some k) h again = tested (is_over api max_ticks k) refl
    where
      tested :
          (b : Bool)
          → is_over api max_ticks k ≡ b
          → Ended api max_ticks Q (elim b [ true ↦ ended k | false ↦ rest k ])
      tested true e = (e, h)
      tested false e = again k refl

  -- The rule for what holds where the loop's test ends it: an invariant `P`, and a property `Q`
  -- that each round gives.
  pub run-Ended :
      (P Q : Loop M → Type 0) (max_insts max_ticks rounds : ℕ) (l : Loop M)
      → ((k : Loop M) → P k → Ensures (step api max_insts k) (λ j. P j × Q j))
      → P l
      → Ended api max_ticks (λ j. P j × Q j) (run api max_insts max_ticks rounds l)
  unfolding run
  run-Ended P Q max_insts max_ticks zero l keep p = tt
  run-Ended P Q max_insts max_ticks (suc rounds) l keep p =
      let o = step api max_insts l in
      let both : Ensures o (λ j. P j × Q j) = keep l p in
      round_ended (λ j. P j × Q j) max_ticks (λ k. run api max_insts max_ticks rounds k) o both
        (λ k e.
          run-Ended P Q max_insts max_ticks rounds k keep
            (Ensures-elim (λ j. P j × Q j) o k both e).0)

  -- From the start of `main`, over any machine, and in any view `fed` of it that lists what
  -- `feed_inst` is given: the loop has read a beginning of the trace, at most `max_insts`
  -- instructions, and fed the machine just these, in order and each once; `inst_cnt` is their
  -- number, `sanitizer_all` has counted just these, and `has_next` is off only at the end of the
  -- trace.
  pub run-Progress :
      (fed : M → List TraceInst) (max_insts max_ticks rounds : ℕ) (m : M) (whole : List TraceInst)
      (unset : TraceInst)
      → Feeds api fed
      → max_insts < 2 ^ 64
      → RunEnsures
          (Progress fed (fed m) max_insts whole)
          (run api max_insts max_ticks rounds (start m whole unset))
  unfolding start tallies
  run-Progress fed max_insts max_ticks rounds m whole unset laws small =
      run_inv (Progress fed (fed m) max_insts whole) max_insts max_ticks rounds
        (start m whole unset) (λ k p. step-Progress api fed laws (fed m) max_insts whole k small p)
        (record {
          read = [];
          order = refl;
          given = sym (append-nil (fed m));
          count = refl;
          within = omega arith;
          tallied = refl;
          exhausted = inl refl;
        })

  -- From the start of `main`, after any number of rounds over any machine: of the instructions read,
  -- which are a beginning of the trace, none but the last asks for a dump, and if the last does, the
  -- flag that stops the reading is on. So nothing is read after a dump marker.
  pub run-stopped :
      (max_insts max_ticks rounds : ℕ) (m : M) (whole : List TraceInst) (unset : TraceInst)
      → RunEnsures (Stops whole) (run api max_insts max_ticks rounds (start m whole unset))
  unfolding start
  run-stopped max_insts max_ticks rounds m whole unset =
      run_inv (Stops whole) max_insts max_ticks rounds (start m whole unset)
        (λ k h. step-Stops api max_insts whole k h)
        (record { read = []; order = refl; last = inl tt })
