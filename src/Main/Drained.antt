-- ===== src/Main/Drained.antt =====
-- The simulation loop of main.cc over the pipeline: it stops early only where all is done.
use ysyx_np_sim.Prelude.{
  ℕ, ◌+◌, ◌^◌, ◌≤◌, ◌<◌, suc, ◌≡◌, refl, ◌∙◌, ap, subst, ◌⊎◌, inl, inr, Bool, true, false, not,
  ◌&&◌, some, List, [], ◌∷◌, if◌then◌else◌, ltb, ◌==◌, arith, >>=-eq-some, if-cases, Bool-cases,
  subst-some, Ensures, Ensures-elim, Ensures-all,
}
use ysyx_np_sim.Trace.{TraceInst}
use ysyx_np_sim.Branch.Unit.{BranchUnit}
use ysyx_np_sim.Branch.Interface.{BranchPred}
use ysyx_np_sim.Pipe.Core.{Core, Ports, inst_avail, is_finished, set_draining, present}
use ysyx_np_sim.Pipe.Core
use ysyx_np_sim.Pipe.InFlight.{InFlight}
use ysyx_np_sim.Pipe.Reach.{Reachable-InFlight, started}
use ysyx_np_sim.Pipe.Fetch.{feed_inst}
use ysyx_np_sim.Main.{
  Loop, Run, ended, faulted, running, update_all, feed_next, feed, next_tick, step, start, run,
  wants_next, is_over,
}
use ysyx_np_sim.Main.Feed.{Served, serve-Served}
use ysyx_np_sim.Main.System.{Devices, machine}
use ysyx_np_sim.Main.Calm.{busy, update_all-draining, feed_inst-busy, serve-Calm}
use ysyx_np_sim.Main.Runs.{Ended, run-Ended}
use ysyx_np_sim.Main.Ends.{EndsBy, run-ends}

Or-map : {A B D E : Type 0} → A ⊎ B → (A → D) → (B → E) → D ⊎ E
Or-map (inl a) f g = inl (f a)
Or-map (inr b) f g = inr (g b)

module _ {P C : Type 0} (api : BranchPred P) (io : Ports C) (devices : Devices C) where
  -- The core drains only when there is nothing more to read.
  abbrev Sound : ℕ → Loop (Core P C) → Type 0
  Sound max_insts l =
      InFlight l.machine × ((l.machine.is_draining ≡ false) ⊎ (wants_next max_insts l ≡ false))

  -- The core is at work, or there is nothing more to read.
  abbrev AtWork : ℕ → Loop (Core P C) → Type 0
  AtWork max_insts l = (is_finished l.machine ≡ false) ⊎ (wants_next max_insts l ≡ false)

  feed_next-Sound :
      (max_insts : ℕ) (l k : Loop (Core P C)) (ts : List TraceInst)
      → InFlight l.machine
      → inst_avail l.machine ≡ true
      → feed_next (machine api io devices) l ts ≡ some k
      → Sound max_insts k × AtWork max_insts k
  unfolding feed_next set_draining
  feed_next-Sound max_insts l k [] f a h =
      let same : record l { has_next = false; machine = set_draining l.machine } ≡ k = cc in
      subst (λ x. Sound max_insts x × AtWork max_insts x) same ((f, inr none_left), inr none_left)
    where
      none_left : not l.stop_after_dump && false && ltb l.inst_cnt max_insts ≡ false
      none_left = ground arith
  feed_next-Sound max_insts l k (t ∷ ts) f a h =
      let (m, e, r) = >>=-eq-some (feed_inst api io l.machine t l.tick) _ h in
      let (g, still, working) = feed_inst-busy api io devices l.machine m t l.tick f e in
      let fresh : l.machine.is_draining ≡ false = ground arith in
      subst-some (λ x. Sound max_insts x × AtWork max_insts x) r
        ((g, inl (still ∙ fresh)), inl working)

  feed-Sound :
      (max_insts : ℕ) (l k : Loop (Core P C))
      → Sound max_insts l
      → feed (machine api io devices) max_insts l ≡ some k
      → Sound max_insts k × AtWork max_insts k
  unfolding feed set_draining
  feed-Sound max_insts l k s h =
      let fed = feed_next (machine api io devices) l l.trace in
      let drained = record l { machine = set_draining l.machine } in
      elim (if-cases (inst_avail l.machine) (if wants_next max_insts l then fed else some drained)
        (some l) h) [
          | inl (avail, h1) ↦ elim (if-cases (wants_next max_insts l) fed (some drained) h1) [
            | inl (wants, h2) ↦ feed_next-Sound max_insts l k l.trace s.0 avail h2
            | inr (full, h2) ↦
                subst-some (λ x. Sound max_insts x × AtWork max_insts x) h2
                  ((s.0, inr full), inr full)
          ]
          | inr (waits, h1) ↦
              subst-some (λ x. Sound max_insts x × AtWork max_insts x) h1 (s, waiting waits s.1)
        ]
    where
      waiting :
          inst_avail l.machine ≡ false
          → (l.machine.is_draining ≡ false) ⊎ (wants_next max_insts l ≡ false)
          → AtWork max_insts l
      waiting waits (inl e) =
          let full : present l.machine.input_buffer ≡ true = ground arith in
          inl (busy l.machine s.0 full)
      waiting waits (inr e) = inr e

  -- What the sys operations do keeps the loop from reading where it did not want to.
  Served-full :
      (max_insts : ℕ) (l k : Loop (Core P C))
      → Served (machine api io devices) l k
      → wants_next max_insts l ≡ false
      → wants_next max_insts k ≡ false
  Served-full max_insts l k s h =
      let same_next : k.has_next ≡ l.has_next = ap (λ x. x.1) s.0 in
      let same_cnt : k.inst_cnt ≡ l.inst_cnt = ap (λ x. x.2) s.0 in
      elim s.2 [ inl e ↦ full k.stop_after_dump refl same_next same_cnt e | inr e ↦ ground arith ]
    where
      full :
          (b : Bool)
          → k.stop_after_dump ≡ b
          → k.has_next ≡ l.has_next
          → k.inst_cnt ≡ l.inst_cnt
          → l.stop_after_dump ≡ false
          → wants_next max_insts k ≡ false
      full true e n c z = ground arith
      full false e n c z = ground arith

  step-Sound :
      (max_insts : ℕ) (l : Loop (Core P C))
      → Sound max_insts l
      → Ensures
          (step (machine api io devices) max_insts l)
          (λ k. Sound max_insts k × AtWork max_insts k)
  unfolding step
  step-Sound max_insts l s = Ensures-all (step (machine api io devices) max_insts l) (λ k h.
      let (m, e0, h0) = >>=-eq-some (update_all (machine api io devices) l.machine l.tick) _ h in
      let (l1, e1, h1) =
        >>=-eq-some (feed (machine api io devices) max_insts (record l { machine = m })) _ h0 in
      let (t, e2, h2) = >>=-eq-some (next_tick l1.tick) _ h1 in
      let (f, still) = update_all-draining api io devices l.machine m l.tick s.0 e0 in
      let s0 : Sound max_insts (record l { machine = m }) = (f, rw still s.1) in
      let (s1, w1) = feed-Sound max_insts (record l { machine = m }) l1 s0 e1 in
      let l2 = record l1 { tick = t } in
      let calm = serve-Calm api io devices l2 k s1.0 h2 in
      let served =
        Ensures-elim (Served (machine api io devices) l2) _ k
          (serve-Served (machine api io devices) l2) h2 in
      let full : wants_next max_insts l2 ≡ false → wants_next max_insts k ≡ false =
        Served-full max_insts l2 k served in
      (
        (calm.0, Or-map s1.1 (λ e. calm.1.0 ∙ e) full),
        Or-map w1 (λ e. ap (λ n. n == 0) calm.1.1 ∙ e) full,
      ))

-- The run has ended: either the ticks are used up, or the core counts no instruction and the loop
-- has nothing more to read. In both cases the core counts just the instructions in it.
abbrev pub Completes : {P C : Type 0} → ℕ → ℕ → Run (Core P C) → Type 0
Completes max_insts max_ticks (ended k) =
    InFlight k.machine
    × ((max_ticks ≤ k.tick) ⊎ ((k.machine.ongoing_insts ≡ 0) × (wants_next max_insts k ≡ false)))
Completes max_insts max_ticks faulted = Unit
Completes max_insts max_ticks (running k) = ⊥

module _ {P C : Type 0} (api : BranchPred P) (io : Ports C) (devices : Devices C) where
  still_running :
      (max_ticks : ℕ) (k : Loop (Core P C))
      → ltb k.tick max_ticks ≡ true
      → is_over (machine api io devices) max_ticks k ≡ true
      → is_finished k.machine ≡ false
      → ⊥
  still_running max_ticks k more over working = ground arith

  completes :
      (max_insts max_ticks tick : ℕ) (r : Run (Core P C))
      → EndsBy (machine api io devices) max_ticks tick r
      → Ended
          (machine api io devices)
          max_ticks
          (λ k. Sound api io devices max_insts k × AtWork api io devices max_insts k)
          r
      → Completes max_insts max_ticks r
  completes max_insts max_ticks tick (ended k) e h = (h.1.0.0, go h.1.1)
    where
      go :
          AtWork api io devices max_insts k
          → (max_ticks ≤ k.tick)
            ⊎ ((k.machine.ongoing_insts ≡ 0) × (wants_next max_insts k ≡ false))
      go w = elim (Bool-cases (ltb k.tick max_ticks)) [
        | inl more ↦ inr (elim w [
          | inl working ↦ absurd (still_running max_ticks k more h.0 working)
          | inr full ↦ (ground arith, full)
        ])
        | inr late ↦ inl (ground arith)
      ]
  completes max_insts max_ticks tick faulted e h = tt
  completes max_insts max_ticks tick (running k) e h = e

  -- From the start of `main`, with rounds for all its ticks, the loop ends by its own test or by a
  -- failed assertion; and where it ends before `max_ticks`, no instruction is counted in the core
  -- and none is left that it would read: the trace is at its end, `max_insts` is reached, or a dump
  -- was asked for.
  pub run-Completes :
      (max_insts max_ticks rounds : ℕ) (bpu : BranchUnit P) (ports : C) (has_nc : Bool)
      (ifq_size mmio_lat unset_tick : ℕ) (whole : List TraceInst) (unset : TraceInst)
      → 0 < ifq_size
      → ifq_size + 8 < 2 ^ 64
      → max_ticks ≤ suc rounds
      → Completes max_insts max_ticks (
          run
            (machine api io devices)
            max_insts
            max_ticks
            (suc rounds)
            (start (Core.init bpu ports has_nc ifq_size mmio_lat unset_tick) whole unset))
  unfolding start Core.init
  run-Completes max_insts max_ticks rounds bpu ports has_nc ifq_size mmio_lat unset_tick whole unset
        pos room enough =
      let m = machine api io devices in
      let l = start (Core.init bpu ports has_nc ifq_size mmio_lat unset_tick) whole unset in
      let f =
        Reachable-InFlight api io _
          (started bpu ports has_nc ifq_size mmio_lat unset_tick pos room) in
      completes max_insts max_ticks 0 _
        (run-ends m max_insts max_ticks rounds l (omega arith) (omega (arith, enough)))
        (run-Ended m (Sound api io devices max_insts) (AtWork api io devices max_insts) max_insts
          max_ticks (suc rounds) l (step-Sound api io devices max_insts) (f, inl refl))
