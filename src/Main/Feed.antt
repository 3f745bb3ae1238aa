-- ===== src/Main/Feed.antt =====
-- What the simulation loop of main.cc has read of the trace.
use ysyx_np_sim.Prelude.{
  ℕ, ◌^◌, ◌≤◌, ◌<◌, ◌≡◌, refl, sym, ◌∙◌, ap, ◌⊎◌, inl, inr, Bool, true, false, List, [], ◌∷◌, ◌++◌,
  ◌==◌, arith, length, length-append, Ensures, Ensures-bind, Ensures-if, Ensures-all, Ensures-elim,
}
use ysyx_np_sim.Trace.{TraceInst, Sanitizer, tally}
use ysyx_np_sim.Trace
use ysyx_np_sim.Trace.Counts.{tallies}
use ysyx_np_sim.Main.Fed.{Feeds, update_all-Keeps, serve-Keeps}
use mathlib.Core.List.{append_assoc}
use ysyx_np_sim.Main.{
  Machine, Loop, update_all, feed_next, feed, fence, serve, next_tick, step, wants_next,
  sys_reset_stats, sys_fence_i, sys_dump_stats,
}

-- The loop has read a beginning of the trace, in order, and given just this to the machine, which
-- had been fed `before`: its length is `inst_cnt`, within `max_insts`, and `sanitizer_all` has
-- counted it; when `has_next` is off, nothing is left.
pub record Progress {M : Type 0} (fed : M → List TraceInst) (before : List TraceInst)
    (max_insts : ℕ) (whole : List TraceInst) (l : Loop M) : Type 0 where
  pub read : List TraceInst
  pub order : read ++ l.trace ≡ whole
  pub given : fed l.machine ≡ before ++ read
  pub count : l.inst_cnt ≡ length read
  pub within : l.inst_cnt ≤ max_insts
  pub tallied : l.sanitizer_all ≡ tallies Trace.reset read
  pub exhausted : (l.has_next ≡ true) ⊎ (l.trace ≡ [])

tallies-append :
    (s : Sanitizer) (ts : List TraceInst) (t : TraceInst)
    → tallies s (ts ++ (t ∷ [])) ≡ tally (tallies s ts) t
unfolding tallies
tallies-append s [] t = refl
tallies-append s (u ∷ ts) t = tallies-append (tally s u) ts t

pub append-cons : (ts us : List TraceInst) (t : TraceInst) → (ts ++ (t ∷ [])) ++ us ≡ ts ++ (t ∷ us)
append-cons [] us t = refl
append-cons (u ∷ ts) us t = ap (λ (vs : List TraceInst). u ∷ vs) (append-cons ts us t)

-- Where the loop is in the trace.
abbrev pub place : {M : Type 0} → Loop M → List TraceInst × Bool × ℕ × Sanitizer
place l = (l.trace, l.has_next, l.inst_cnt, l.sanitizer_all)

module _ {M : Type 0} (fed : M → List TraceInst) (before : List TraceInst) where
  place-Progress :
      (l k : Loop M) (max_insts : ℕ) (whole : List TraceInst)
      → place k ≡ place l
      → fed k.machine ≡ fed l.machine
      → Progress fed before max_insts whole l
      → Progress fed before max_insts whole k
  place-Progress l k max_insts whole s same p = record {
    read = p.read;
    order = rw (ap (λ x. x.0) s) p.order;
    given = same ∙ p.given;
    count = ap (λ x. x.2) s ∙ p.count;
    within = omega (arith, ap (λ x. x.2) s, p.within);
    tallied = ap (λ x. x.3) s ∙ p.tallied;
    exhausted = rw (ap (λ x. x.1) s, ap (λ x. x.0) s) p.exhausted;
  }

module _ {M : Type 0} (api : Machine M) where
  -- What the sys operations leave alone; a dump stops the loop's reading for good.
  abbrev pub Served : Loop M → Loop M → Type 0
  Served l k =
      (place k ≡ place l)
      × (k.tick ≡ l.tick)
      × ((l.stop_after_dump ≡ false) ⊎ (k.stop_after_dump ≡ true))

  stays : (b : Bool) → (b ≡ false) ⊎ (b ≡ true)
  stays true = inr refl
  stays false = inl refl

  pub serve-Served : (l : Loop M) → Ensures (serve api l) (Served l)
  unfolding serve
  serve-Served l =
      let kept = stays l.stop_after_dump in
      Ensures-if (Served l) (l.inst.sys_op == sys_reset_stats) _ _ (λ _. (refl, refl, kept))
        (λ _.
          Ensures-if (Served l) (l.inst.sys_op == sys_fence_i) _ _
            (λ _.
              Ensures-bind (Served l) (fence api l.machine l.tick) _ (λ m h. (refl, refl, kept)))
            (λ _.
              Ensures-if (Served l) (l.inst.sys_op == sys_dump_stats) _ _
                (λ _. (refl, refl, inr refl)) (λ _. (refl, refl, kept))))

  pub wants_next-parts :
      (max_insts : ℕ) (l : Loop M)
      → wants_next max_insts l ≡ true
      → (l.stop_after_dump ≡ false) × (l.has_next ≡ true) × (l.inst_cnt < max_insts)
  wants_next-parts max_insts l h = ground arith

module _ {M : Type 0} (api : Machine M) (fed : M → List TraceInst) (laws : Feeds api fed)
    (before : List TraceInst) (max_insts : ℕ) (whole : List TraceInst) where
  -- How far the loop has come.
  abbrev At : Loop M → Type 0
  At l = Progress fed before max_insts whole l

  feed_next-Progress :
      (l : Loop M) (ts : List TraceInst)
      → max_insts < 2 ^ 64
      → l.trace ≡ ts
      → l.has_next ≡ true
      → l.inst_cnt < max_insts
      → At l
      → Ensures (feed_next api l ts) At
  unfolding feed_next
  feed_next-Progress l [] small e more lt p = record {
    read = p.read;
    order = p.order;
    given = laws.drains l.machine ∙ p.given;
    count = p.count;
    within = p.within;
    tallied = p.tallied;
    exhausted = inr e;
  }
  feed_next-Progress l (t ∷ ts) small e more lt p =
      Ensures-bind At (api.feed_inst l.machine t l.tick) _ (λ m h. record {
        read = p.read ++ (t ∷ []);
        order =
            append-cons p.read ts t ∙ ap (λ (us : List TraceInst). p.read ++ us) (sym e) ∙ p.order;
        given =
            Ensures-elim (λ k. fed k ≡ fed l.machine ++ (t ∷ [])) _ m
              (laws.feeds l.machine t l.tick) h
            ∙ ap (λ (us : List TraceInst). us ++ (t ∷ [])) p.given
            ∙ append_assoc before p.read (t ∷ []);
        count = omega (arith, p.count, length-append p.read (t ∷ []));
        within = omega (arith, p.count);
        tallied =
            ap (λ (s : Sanitizer). tally s t) p.tallied ∙ sym (tallies-append Trace.reset p.read t);
        exhausted = inl more;
      })

  feed-Progress : (l : Loop M) → max_insts < 2 ^ 64 → At l → Ensures (feed api max_insts l) At
  unfolding feed
  feed-Progress l small p =
      Ensures-if At (api.inst_avail l.machine) _ _
        (λ _.
          Ensures-if At (wants_next max_insts l) (feed_next api l l.trace) _
            (λ w.
              let (_, more, lt) = wants_next-parts api max_insts l w in
              feed_next-Progress l l.trace small refl more lt p)
            (λ _. place-Progress fed before l _ max_insts whole refl (laws.drains l.machine) p))
        (λ _. p)

  -- One round of the loop keeps the progress.
  pub step-Progress : (l : Loop M) → max_insts < 2 ^ 64 → At l → Ensures (step api max_insts l) At
  unfolding step
  step-Progress l small p = Ensures-bind At (update_all api l.machine l.tick) _ (λ m e.
      let l0 = record l { machine = m } in
      let same =
        Ensures-elim (λ k. fed k ≡ fed l.machine) _ m
          (update_all-Keeps api fed laws l.machine l.tick) e in
      let p0 : At l0 = place-Progress fed before l l0 max_insts whole refl same p in
      Ensures-bind At (feed api max_insts l0) _ (λ l1 e1.
        let p1 = Ensures-elim At _ l1 (feed-Progress l0 small p0) e1 in
        Ensures-bind At (next_tick l1.tick) _ (λ t e2.
          let l2 = record l1 { tick = t } in
          let p2 : At l2 = place-Progress fed before l1 l2 max_insts whole refl refl p1 in
          Ensures-all (serve api l2) (λ k e3.
            place-Progress fed before l2 k max_insts whole
              (Ensures-elim _ _ k (serve-Served api l2) e3).0
              (Ensures-elim (λ j. fed j.machine ≡ fed l2.machine) _ k (serve-Keeps api fed laws l2)
                e3)
              p2))))
