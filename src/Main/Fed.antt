-- ===== src/Main/Fed.antt =====
-- What the simulation loop of main.cc gives to `feed_inst`, as seen in the state of the machine.
use ysyx_np_sim.Prelude.{
  ℕ, ◌≡◌, refl, ◌∙◌, Option, List, [], ◌∷◌, ◌++◌, ◌==◌, ◌>>=◌, leb, Ensures, Ensures-bind,
  Ensures-if, Ensures-all, Ensures-elim,
}
use ysyx_np_sim.Trace.{TraceInst}
use ysyx_np_sim.Main.{
  Clocked, Machine, Loop, do_update, update_all, fence, serve, sys_reset_stats, sys_fence_i,
  sys_dump_stats,
}

module _ {M : Type 0} (fed : M → List TraceInst) where
  -- Where the code returns, the same instructions are fed.
  abbrev pub Keeps : M → Option M → Type 0
  Keeps m o = Ensures o (λ k. fed k ≡ fed m)

-- A view of the machine that lists what `feed_inst` was given: a feed appends its instruction, and
-- no other operation changes the list.
pub record Feeds {M : Type 0} (api : Machine M) (fed : M → List TraceInst) : Type 0 where
  pub memory : (m : M) (now : ℕ) → Keeps fed m (api.memory.update_impl m now)
  pub dmem_bypass : (m : M) (now : ℕ) → Keeps fed m (api.dmem_bypass.update_impl m now)
  pub dcache : (m : M) (now : ℕ) → Keeps fed m (api.dcache.update_impl m now)
  pub icache : (m : M) (now : ℕ) → Keeps fed m (api.icache.update_impl m now)
  pub core : (m : M) (now : ℕ) → Keeps fed m (api.core.update_impl m now)
  pub feeds :
      (m : M) (t : TraceInst) (now : ℕ)
      → Ensures (api.feed_inst m t now) (λ k. fed k ≡ fed m ++ (t ∷ []))
  pub drains : (m : M) → fed (api.set_draining m) ≡ fed m
  pub flushes : (m : M) → fed (api.flush_bypass (api.flush_dcache (api.flush_icache m))) ≡ fed m
  pub resets : (m : M) (now : ℕ) → fed (api.reset_stats m now) ≡ fed m

module _ {M : Type 0} (api : Machine M) (fed : M → List TraceInst) (laws : Feeds api fed) where
  updates :
      (d : Clocked M) (now : ℕ)
      → ((m : M) (now : ℕ) → Keeps fed m (d.update_impl m now))
      → (m : M) → Keeps fed m (do_update d now m)
  unfolding do_update
  updates d now law m =
      Ensures-if (λ k. fed k ≡ fed m) (leb (d.next_update m) now) _ _ (λ _. law m now) (λ _. refl)

  and_then :
      (m : M) (o : Option M) (f : M → Option M)
      → Keeps fed m o
      → ((k : M) → Keeps fed k (f k))
      → Keeps fed m (o >>= f)
  and_then m o f h g =
      Ensures-bind (λ k. fed k ≡ fed m) o f
        (λ k e.
          let same = Ensures-elim (λ k. fed k ≡ fed m) o k h e in
          Ensures-all (f k) (λ j d. Ensures-elim (λ j. fed j ≡ fed k) (f k) j (g k) d ∙ same))

  pub update_all-Keeps : (m : M) (now : ℕ) → Keeps fed m (update_all api m now)
  unfolding update_all
  update_all-Keeps m now =
      and_then m _ _
        (and_then m _ _
          (and_then m _ _
            (and_then m _ _ (updates api.memory now laws.memory m)
              (updates api.dmem_bypass now laws.dmem_bypass))
            (updates api.dcache now laws.dcache))
          (updates api.icache now laws.icache))
        (updates api.core now laws.core)

  fence-Keeps : (m : M) (now : ℕ) → Keeps fed m (fence api m now)
  unfolding fence
  fence-Keeps m now =
      let flushed = api.flush_bypass (api.flush_dcache (api.flush_icache m)) in
      Ensures-all (fence api m now) (λ k e.
        Ensures-elim (λ k. fed k ≡ fed flushed) (fence api m now) k
          (and_then flushed _ _
            (and_then flushed _ _ (updates api.icache now laws.icache flushed)
              (updates api.dcache now laws.dcache))
            (updates api.dmem_bypass now laws.dmem_bypass))
          e
        ∙ laws.flushes m)

  -- No sys operation feeds.
  pub serve-Keeps : (l : Loop M) → Ensures (serve api l) (λ k. fed k.machine ≡ fed l.machine)
  unfolding serve
  serve-Keeps l =
      let Q : Loop M → Type 0 = λ k. fed k.machine ≡ fed l.machine in
      Ensures-if Q (l.inst.sys_op == sys_reset_stats) _ _ (λ _. laws.resets l.machine l.tick)
        (λ _.
          Ensures-if Q (l.inst.sys_op == sys_fence_i) _ _
            (λ _. Ensures-bind Q (fence api l.machine l.tick) _ (λ m h.
              Ensures-elim (λ k. fed k ≡ fed l.machine) _ m (fence-Keeps l.machine l.tick) h))
            (λ _. Ensures-if Q (l.inst.sys_op == sys_dump_stats) _ _ (λ _. refl) (λ _. refl)))
