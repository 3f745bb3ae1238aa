-- ===== src/Main/Calm.antt =====
-- The calls of main.cc's simulation loop, against the number of instructions in the pipeline.
use ysyx_np_sim.Prelude.{
  ℕ, ◌+◌, ◌^◌, ◌≤◌, ◌<◌, ◌≡◌, refl, ◌∙◌, ap, subst, ◌⊎◌, inl, inr, true, false, Option, none, some,
  List, [], ◌∷◌, ◌>>=◌, leb, ◌==◌, arith, >>=-eq-some, if-eq-some, subst-some, Ensures-elim,
}
use ysyx_np_sim.Trace.{TraceInst}
use ysyx_np_sim.Branch.Interface.{BranchPred}
use ysyx_np_sim.Pipe.Core.{Core, Ports, inst_avail, is_finished, set_draining, present}
use ysyx_np_sim.Pipe.Core
use ysyx_np_sim.Pipe.Core.Alike.{Alike, Alike-trans}
use ysyx_np_sim.Pipe.Types.{Transaction}
use ysyx_np_sim.Pipe.InFlight.{InFlight, RealSlot, weight, weight-counted, Flow-room}
use ysyx_np_sim.Pipe.Respond.{recv_mem_resp, ack_mem_avail}
use ysyx_np_sim.Pipe.Respond.Flow.{recv_mem_resp-InFlight, ack_mem_avail-InFlight}
use ysyx_np_sim.Pipe.Respond.Alike.{recv_mem_resp-Alike, ack_mem_avail-Alike}
use ysyx_np_sim.Pipe.Fetch.{feed_inst}
use ysyx_np_sim.Pipe.Fetch.Flow.{feed_inst-InFlight}
use ysyx_np_sim.Pipe.Fetch.Alike.{feed_inst-counts}
use ysyx_np_sim.Pipe.Update.Flow.{update_impl-InFlight}
use ysyx_np_sim.Pipe.Update.Drain.{update_impl-is_draining}
use ysyx_np_sim.Main.{
  Clocked, Loop, do_update, update_all, fence, serve, sys_reset_stats, sys_fence_i, sys_dump_stats,
  sys_none,
}
use ysyx_np_sim.Main.System.{
  Device, memory, dmem_bypass, dcache, icache, CpuEvent, responded, acknowledged, Devices, receive,
  device_update, reset_all, machine, clocked,
}

do_update-cases :
    {M : Type 0} (d : Clocked M) (now : ℕ) (m n : M)
    → do_update d now m ≡ some n
    → (d.update_impl m now ≡ some n) ⊎ (some m ≡ some n)
unfolding do_update
do_update-cases d now m n h =
    if-eq-some (leb (d.next_update m) now) (d.update_impl m now) (some m) h

module _ {P C : Type 0} where
  -- The same number of instructions in the core, which are still just those that it counts.
  abbrev pub Calm : Core P C → Core P C → Type 0
  Calm c d = InFlight d × Alike c d

  Calm-trans : (c d e : Core P C) → Calm c d → Calm d e → Calm c e
  Calm-trans c d e p q = (q.0, Alike-trans c d e p.1 q.1)

  receive-Calm :
      (c d : Core P C) (events : List CpuEvent) (now : ℕ)
      → InFlight c
      → receive c events now ≡ some d
      → Calm c d
  unfolding receive
  receive-Calm c d [] now f h = let e : c ≡ d = cc in subst (Calm c) e (f, (refl, refl))
  receive-Calm c d (responded resp ∷ events) now f h =
      let (c1, e, k) = >>=-eq-some (recv_mem_resp c resp now) _ h in
      let f1 = Ensures-elim InFlight _ c1 (recv_mem_resp-InFlight c resp now f) e in
      Calm-trans c c1 d (f1, recv_mem_resp-Alike c c1 resp now e)
        (receive-Calm c1 d events now f1 k)
  receive-Calm c d (acknowledged ack ∷ events) now f h =
      let (c1, e, k) = >>=-eq-some (ack_mem_avail c ack now) _ h in
      let f1 = Ensures-elim InFlight _ c1 (ack_mem_avail-InFlight c ack now f) e in
      Calm-trans c c1 d (f1, ack_mem_avail-Alike c c1 ack now e) (receive-Calm c1 d events now f1 k)

  -- An occupied input buffer keeps the core from being finished.
  pub busy : (c : Core P C) → InFlight c → present c.input_buffer ≡ true → is_finished c ≡ false
  busy c f h = go c.input_buffer refl f.input_real h
    where
      go :
          (slot : Option Transaction)
          → c.input_buffer ≡ slot
          → RealSlot slot
          → present slot ≡ true
          → is_finished c ≡ false
      go none e r p = cc
      go (some t) e r p =
          let one : 1 ≤ c.ongoing_insts =
            omega (arith, f.number, ap weight e, weight-counted t r.0) in
          ground arith

module _ {P C : Type 0} (api : BranchPred P) (io : Ports C) (devices : Devices C) where
  device-Calm :
      (device : Device) (c d : Core P C) (now : ℕ)
      → InFlight c
      → do_update (clocked api io devices device) now c ≡ some d
      → Calm c d
  unfolding device_update
  device-Calm device c d now f h =
      elim (do_update-cases (clocked api io devices device) now c d h) [
        | inl e ↦
            let ((ports, events), _, k) =
              >>=-eq-some (devices.update_impl device c.ports now) _ e in
            receive-Calm (record c { ports = ports }) d events now f k
        | inr e ↦ let same : c ≡ d = cc in subst (Calm c) same (f, (refl, refl))
      ]

  pub update_all-draining :
      (c d : Core P C) (now : ℕ)
      → InFlight c
      → update_all (machine api io devices) c now ≡ some d
      → InFlight d × (d.is_draining ≡ c.is_draining)
  unfolding update_all
  update_all-draining c d now f h =
      let (c4, e4, k4) = >>=-eq-some _ _ h in
      let (c3, e3, k3) = >>=-eq-some _ _ e4 in
      let (c2, e2, k2) = >>=-eq-some _ _ e3 in
      let (c1, e1, k1) = >>=-eq-some _ _ e2 in
      let s1 = device-Calm memory c c1 now f e1 in
      let s2 = device-Calm dmem_bypass c1 c2 now s1.0 k1 in
      let s3 = device-Calm dcache c2 c3 now s2.0 k2 in
      let s4 = device-Calm icache c3 c4 now s3.0 k3 in
      let back : c4.is_draining ≡ c.is_draining = s4.1.0 ∙ s3.1.0 ∙ s2.1.0 ∙ s1.1.0 in
      elim (do_update-cases (machine api io devices).core now c4 d k4) [
        | inl e ↦ (
          Ensures-elim InFlight _ d (update_impl-InFlight api io c4 now s4.0) e,
          update_impl-is_draining api io c4 d now e ∙ back,
        )
        | inr e ↦
            let same : c4 ≡ d = cc in
            subst (λ x. InFlight x × (x.is_draining ≡ c.is_draining)) same (s4.0, back)
      ]

  fence-Calm :
      (c d : Core P C) (now : ℕ)
      → InFlight c
      → fence (machine api io devices) c now ≡ some d
      → Calm c d
  unfolding fence
  fence-Calm c d now f h =
      let (c2, e2, k2) = >>=-eq-some _ _ h in
      let (c1, e1, k1) = >>=-eq-some _ _ e2 in
      let s1 = device-Calm icache _ c1 now f e1 in
      let s2 = device-Calm dcache c1 c2 now s1.0 k1 in
      let s3 = device-Calm dmem_bypass c2 d now s2.0 k2 in
      (s3.0, (s3.1.0 ∙ s2.1.0 ∙ s1.1.0, s3.1.1 ∙ s2.1.1 ∙ s1.1.1))

  pub feed_inst-busy :
      (c d : Core P C) (inst : TraceInst) (now : ℕ)
      → InFlight c
      → feed_inst api io c inst now ≡ some d
      → InFlight d × (d.is_draining ≡ c.is_draining) × (is_finished d ≡ false)
  feed_inst-busy c d inst now f h =
      let (still, more) = feed_inst-counts api io c d inst now h in
      let lt : c.ongoing_insts + 1 < 2 ^ 64 = Flow-room f in
      (Ensures-elim InFlight _ d (feed_inst-InFlight api io c inst now f) h, still, ground arith)

  pub serve-Calm :
      (l k : Loop (Core P C))
      → InFlight l.machine
      → serve (machine api io devices) l ≡ some k
      → Calm l.machine k.machine
  unfolding serve reset_all Core.reset_stats
  serve-Calm l k f h =
      let served = record l.inst { sys_op = sys_none } in
      let fenced = fence (machine api io devices) l.machine l.tick >>= λ m.
      some (record l { inst = served; machine = m }) in
      let Q : Loop (Core P C) → Type 0 = λ x. Calm l.machine x.machine in
      elim (if-eq-some (l.inst.sys_op == sys_reset_stats) _ _ h) [
        | inl h1 ↦ subst-some Q h1 (f, (refl, refl))
        | inr h1 ↦ elim (if-eq-some (l.inst.sys_op == sys_fence_i) fenced _ h1) [
          | inl h2 ↦
              let (m, e, r) = >>=-eq-some (fence (machine api io devices) l.machine l.tick) _ h2 in
              subst-some Q r (fence-Calm l.machine m l.tick f e)
          | inr h2 ↦ elim (if-eq-some (l.inst.sys_op == sys_dump_stats) _ _ h2) [
            | inl h3 ↦ subst-some Q h3 (f, (refl, refl))
            | inr h3 ↦ subst-some Q h3 (f, (refl, refl))
          ]
        ]
      ]
