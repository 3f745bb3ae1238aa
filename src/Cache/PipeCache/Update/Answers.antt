-- ===== src/Cache/PipeCache/Update/Answers.antt =====
-- A tick of `PipeCache` answers each request that leaves the pipe.
use ysyx_np_sim.Prelude.{
  ℕ, ◌+◌, ◌<◌, ◌≡◌, refl, ◌∙◌, sym, true, ◌&&◌, Option, none, some, List, [], ◌∷◌, ◌++◌, arith,
  Ensures, Ensures-bind, Ensures-if, Ensures-elim,
}
use ysyx_np_sim.Cache.Events.{Event, cpu_resp, cpu_ack, mem_req, inf_time}
use ysyx_np_sim.Cache.PipeCache.{PipeCache, Entry, back, handle_flush}
use ysyx_np_sim.Cache.PipeCache.Update.{
  locate, serve_back, all_empty, shift_pipe, tail_misses, tail_miss, advance, finish, deliver,
  update_impl,
}
use ysyx_np_sim.Cache.PipeCache.Update.Pipe.{held, held-shift, held-empty, held-cleared}
use ysyx_np_sim.Cache.PipeCache.Update.Serve.{
  answers, IsPrompt, Alike-IsPrompt, Balances, Serves, locate-held, after-Balances,
  serve_back-Serves,
}

tail_miss-Balances :
    (p : PipeCache) (o : Option Entry) (now : ℕ)
    → back p.pipe ≡ some o
    → Ensures (tail_miss p o now) (λ q. Balances p (q, []))
unfolding tail_miss
tail_miss-Balances p none now b = tt
tail_miss-Balances p (some e) now b =
    Ensures-bind (λ q. Balances p (q, [])) (locate p e now) _
      (λ (r, q) h.
        let (alike, same, _) = locate-held p q e r now b h in (alike, omega (arith, same)))

-- Moving on answers nothing, whether the new last entry hits or misses.
advance-Balances :
    (p : PipeCache) (now : ℕ) → back p.pipe ≡ some none → Ensures (advance p now) (Balances p)
unfolding advance
advance-Balances p now b =
    let p1 = record p { pipe = shift_pipe p.pipe } in
    let same = held-shift p.pipe b in
    Ensures-bind (Balances p) (back p1.pipe) _ (λ o e1.
      Ensures-bind (Balances p) (tail_misses p1 o) _ (λ misses _.
        Ensures-if (Balances p) misses _ _
          (λ _. Ensures-bind (Balances p) (tail_miss p1 o now) _ (λ q e.
            after-Balances p p1 (q, []) (refl, refl, refl) same
              (Ensures-elim (λ q. Balances p1 (q, [])) _ q (tail_miss-Balances p1 o now e1) e)))
          (λ _. ((refl, refl, refl), omega (arith, same)))))

finish-Balances :
    (p : PipeCache) (now : ℕ)
    → IsPrompt p
    → back p.pipe ≡ some none
    → Ensures (finish p now) (Balances p)
unfolding finish handle_flush
finish-Balances p now v b =
    Ensures-if (Balances p) (p.pending_flush && all_empty p.pipe) _ _
      (λ e.
        let gone : all_empty p.pipe ≡ true = ground arith in
        (
          (sym v.none_waits, refl, refl),
          omega (arith, held-empty p.pipe gone, held-cleared p.pipe),
        ))
      (λ _. advance-Balances p now b)

deliver-none : (p : PipeCache) (now : ℕ) → IsPrompt p → now < inf_time → deliver p now ≡ (p, [])
unfolding deliver
deliver-none p now v h = ground (arith, v.none_waits)

answers-++ : (es fs : List Event) → answers (es ++ fs) ≡ answers es + answers fs
answers-++ [] fs = omega arith
answers-++ (cpu_resp t ∷ es) fs = omega (arith, answers-++ es fs)
answers-++ (cpu_ack t ∷ es) fs = answers-++ es fs
answers-++ (mem_req t ∷ es) fs = answers-++ es fs

-- The requests are in the pipe still, or answered.
abbrev Keeps : PipeCache → PipeCache × List Event → Type 0
Keeps p x = IsPrompt x.0 × (held p.pipe ≡ held x.0.pipe + answers x.1)

Balances-Keeps :
    (p : PipeCache) (x : PipeCache × List Event) → IsPrompt p → Balances p x → Keeps p x
Balances-Keeps p x v b = (Alike-IsPrompt p x.0 b.0 v, b.1)

two-Balances :
    (p q r : PipeCache) (out sent : List Event)
    → Balances p (q, out)
    → Balances q (r, sent)
    → Balances p (r, out ++ sent)
two-Balances p q r out sent (a, m) (b, n) =
    ((b.0 ∙ a.0, b.1 ∙ a.1, b.2 ∙ a.2), omega (arith, m, n, answers-++ out sent))

-- A tick of a cache that answers hits at once keeps every request in the pipe or answers it, and
-- answers none twice: as many requests were in the pipe as are left and responses were sent to the
-- core. The tick is before the last one of the clock, and the cache still has no answer waiting.
pub update_impl-answers :
    (p : PipeCache) (now : ℕ)
    → IsPrompt p
    → now < inf_time
    → Ensures
        (update_impl p now)
        (λ (q, out). IsPrompt q × (held p.pipe ≡ held q.pipe + answers out))
unfolding update_impl
update_impl-answers p now v h = rw (deliver-none p now v h) (
    Ensures-bind (Keeps p) (back p.pipe) _ (λ o b.
      Ensures-bind (Keeps p) (serve_back p o now) _ (λ (goes_on, p2, out) e.
        let (bal, free) =
          Ensures-elim (Serves p) _ (goes_on, p2, out) (serve_back-Serves p o now v b) e in
        Ensures-if (Keeps p) goes_on _ _
          (λ t. Ensures-bind (Keeps p) (finish p2 now) _ (λ (p3, sent) f.
            Balances-Keeps p (p3, out ++ sent) v
              (two-Balances p p2 p3 out sent bal (
                Ensures-elim (Balances p2) _ (p3, sent)
                  (finish-Balances p2 now (Alike-IsPrompt p p2 bal.0 v) (free t)) f))))
          (λ _. Balances-Keeps p (p2, out) v bal))))
