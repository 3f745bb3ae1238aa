-- ===== src/Main/Stops.antt =====
-- A dump marker in the trace ends the reading of the simulation loop of main.cc.
use ysyx_np_sim.Prelude.{
  ℕ, ◌≡◌, refl, sym, ◌∙◌, ap, ◌⊎◌, inl, inr, Bool, true, false, arith, List, [], ◌∷◌, ◌++◌, ◌==◌,
  All, Ensures, Ensures-bind, Ensures-if, Ensures-elim,
}
use ysyx_np_sim.Trace.{TraceInst}
use ysyx_np_sim.Main.{
  Machine, Loop, update_all, feed_next, feed, fence, serve, next_tick, step, wants_next,
  sys_reset_stats, sys_fence_i, sys_dump_stats,
}
use ysyx_np_sim.Main.Feed.{append-cons, wants_next-parts}

-- An instruction that does not ask for a dump.
abbrev pub IsPlain : TraceInst → Type 0
IsPlain t = (t.sys_op == sys_dump_stats) ≡ false

All-last :
    (ts : List TraceInst) (t : TraceInst)
    → All IsPlain ts
    → IsPlain t
    → All IsPlain (ts ++ (t ∷ []))
All-last [] t h p = (p, tt)
All-last (u ∷ ts) t h p = (h.0, All-last ts t h.1 p)

-- Only the last of the instructions read may ask for a dump; `P` holds if it does.
abbrev LastOnly : Type 0 → List TraceInst → Type 0
LastOnly P read =
    All IsPlain read
    ⊎ (P × ((ts : List TraceInst) × (t : TraceInst) × (read ≡ ts ++ (t ∷ [])) × All IsPlain ts))

-- The loop has read a beginning of the trace, and no instruction of it but the last asks for a dump;
-- if the last may do so, `stop_after_dump` is on.
pub record Stops {M : Type 0} (whole : List TraceInst) (l : Loop M) : Type 0 where
  pub read : List TraceInst
  pub order : read ++ l.trace ≡ whole
  pub last : LastOnly (l.stop_after_dump ≡ true) read

-- The same before the instruction is served.
record Reads {M : Type 0} (whole : List TraceInst) (l : Loop M) : Type 0 where
  read : List TraceInst
  order : read ++ l.trace ≡ whole
  last : LastOnly ((l.stop_after_dump ≡ true) ⊎ ((l.inst.sys_op == sys_dump_stats) ≡ true)) read

weaken : (P Q : Type 0) (read : List TraceInst) → (P → Q) → LastOnly P read → LastOnly Q read
weaken P Q read f (inl plain) = inl plain
weaken P Q read f (inr (p, rest)) = inr (f p, rest)

module _ {M : Type 0} (api : Machine M) (max_insts : ℕ) (whole : List TraceInst) where
  kept :
      (l k : Loop M)
      → k.trace ≡ l.trace
      → k.stop_after_dump ≡ l.stop_after_dump
      → Stops whole l
      → Reads whole k
  kept l k same flag h = record {
    read = h.read;
    order = ap (λ (ts : List TraceInst). h.read ++ ts) same ∙ h.order;
    last = weaken _ _ h.read (λ e. inl (flag ∙ e)) h.last;
  }

  -- What was read before an instruction that is read does not ask for a dump.
  IsPlain-before : (l : Loop M) (h : Stops whole l) → l.stop_after_dump ≡ false → All IsPlain h.read
  IsPlain-before l h off = go h.last
    where
      go : LastOnly (l.stop_after_dump ≡ true) h.read → All IsPlain h.read
      go (inl plain) = plain
      go (inr (on, _)) = cc

  feed_next-Reads :
      (l : Loop M) (ts : List TraceInst)
      → l.trace ≡ ts
      → l.stop_after_dump ≡ false
      → Stops whole l
      → Ensures (feed_next api l ts) (Reads whole)
  unfolding feed_next
  feed_next-Reads l [] e off h = kept l _ refl refl h
  feed_next-Reads l (t ∷ ts) e off h =
      let plain = IsPlain-before l h off in
      Ensures-bind (Reads whole) (api.feed_inst l.machine t l.tick) _ (λ m _. record {
        read = h.read ++ (t ∷ []);
        order =
            append-cons h.read ts t ∙ ap (λ (us : List TraceInst). h.read ++ us) (sym e) ∙ h.order;
        last = last_of plain (t.sys_op == sys_dump_stats) refl;
      })
    where
      last_of :
          All IsPlain h.read
          → (b : Bool) → (t.sys_op == sys_dump_stats) ≡ b
          → LastOnly
              ((l.stop_after_dump ≡ true) ⊎ ((t.sys_op == sys_dump_stats) ≡ true))
              (h.read ++ (t ∷ []))
      last_of plain true d = inr (inr d, (h.read, t, refl, plain))
      last_of plain false d = inl (All-last h.read t plain d)

  feed-Reads : (l : Loop M) → Stops whole l → Ensures (feed api max_insts l) (Reads whole)
  unfolding feed
  feed-Reads l h =
      Ensures-if (Reads whole) (api.inst_avail l.machine) _ _
        (λ _.
          Ensures-if (Reads whole) (wants_next max_insts l) (feed_next api l l.trace) _
            (λ w. feed_next-Reads l l.trace refl (wants_next-parts api max_insts l w).0 h)
            (λ _. kept l _ refl refl h))
        (λ _. kept l _ refl refl h)

  stays :
      (l k : Loop M)
      → Reads whole l
      → k.trace ≡ l.trace
      → k.stop_after_dump ≡ l.stop_after_dump
      → ((l.inst.sys_op == sys_dump_stats) ≡ true → l.stop_after_dump ≡ true)
      → Stops whole k
  stays l k h same flag f = record {
    read = h.read;
    order = ap (λ (ts : List TraceInst). h.read ++ ts) same ∙ h.order;
    last = weaken _ _ h.read on h.last;
  }
    where
      on :
          (l.stop_after_dump ≡ true) ⊎ ((l.inst.sys_op == sys_dump_stats) ≡ true)
          → k.stop_after_dump ≡ true
      on (inl e) = flag ∙ e
      on (inr d) = flag ∙ f d

  -- Serving a dump turns `stop_after_dump` on.
  serve-Stops : (l : Loop M) → Reads whole l → Ensures (serve api l) (Stops whole)
  unfolding serve
  serve-Stops l h =
      Ensures-if (Stops whole) (l.inst.sys_op == sys_reset_stats) _ _
        (λ e. stays l _ h refl refl (λ d. ground arith))
        (λ _.
          Ensures-if (Stops whole) (l.inst.sys_op == sys_fence_i) _ _
            (λ e.
              Ensures-bind (Stops whole) (fence api l.machine l.tick) _
                (λ m _. stays l _ h refl refl (λ d. ground arith)))
            (λ _.
              Ensures-if (Stops whole) (l.inst.sys_op == sys_dump_stats) _ _
                (λ _. record {
                  read = h.read;
                  order = h.order;
                  last = weaken _ _ h.read (λ _. refl) h.last;
                })
                (λ e. stays l _ h refl refl (λ d. cc))))

  -- One round.
  pub step-Stops : (l : Loop M) → Stops whole l → Ensures (step api max_insts l) (Stops whole)
  unfolding step
  step-Stops l h = Ensures-bind (Stops whole) (update_all api l.machine l.tick) _ (λ m _.
      let l0 = record l { machine = m } in
      let h0 : Stops whole l0 = record { read = h.read; order = h.order; last = h.last } in
      Ensures-bind (Stops whole) (feed api max_insts l0) _ (λ l1 e1.
        let r : Reads whole l1 = Ensures-elim (Reads whole) _ l1 (feed-Reads l0 h0) e1 in
        Ensures-bind (Stops whole) (next_tick l1.tick) _ (λ t _.
          serve-Stops (record l1 { tick = t })
            (record { read = r.read; order = r.order; last = r.last }))))
