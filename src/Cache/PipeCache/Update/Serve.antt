-- ===== src/Cache/PipeCache/Update/Serve.antt =====
-- How `PipeCache` serves the last request of its pipe.
use ysyx_np_sim.Prelude.{
  ℕ, suc, ◌+◌, ◌≡◌, refl, ◌∙◌, ap, Bool, true, false, not, ◌&&◌, ◌||◌, Option, none, some, List, [],
  ◌∷◌, arith, ◌>>=◌, if◌then◌else◌, ◌==◌, Ensures, Ensures-all, Ensures-bind, Ensures-if,
  Ensures-elim, Ensures-then, >>=-eq-some, subst-some, incr,
}
use ysyx_np_sim.Mem.Types.{MemRwOpt, read, write, CpuTrans}
use ysyx_np_sim.Cache.Base.{Ref, line_at, access, put_line, offset_of, merge, strb_extend}
use ysyx_np_sim.Cache.Line.{Line, at_aligned}
use ysyx_np_sim.Cache.Events.{Event, cpu_resp, cpu_ack, mem_req, inf_time, resp_of}
use ysyx_np_sim.Cache.PipeCache.{PipeCache, Entry, back, respond, hit_as, handle_hit}
use ysyx_np_sim.Cache.PipeCache.Update.{
  save_evict_info, handle_prefetch, set_back, locate, located, may_prefetch, serve_hit, serve_miss,
  serve, serve_back,
}
use ysyx_np_sim.Cache.PipeCache.Update.Pipe.{held, held-served, held-kept, back-set_back}

-- How many answers to the core are among the calls.
abbrev pub answers : List Event → ℕ
answers [] = 0
answers (cpu_resp t ∷ es) = suc (answers es)
answers (cpu_ack t ∷ es) = answers es
answers (mem_req t ∷ es) = answers es

-- Hits are answered at once, and no answer waits.
pub record IsPrompt (p : PipeCache) : Type 0 where
  pub none_waits : p.sched_hit_time ≡ inf_time
  pub no_delay : p.write_back && not (p.wb_hit_resp_delay == 0) ≡ false

-- The same settings.
abbrev pub Alike : PipeCache → PipeCache → Type 0
Alike p q =
    (q.sched_hit_time ≡ p.sched_hit_time)
    × (q.write_back ≡ p.write_back)
    × (q.wb_hit_resp_delay ≡ p.wb_hit_resp_delay)

pub Alike-IsPrompt : (p q : PipeCache) → Alike p q → IsPrompt p → IsPrompt q
Alike-IsPrompt p q a v = record {
  none_waits = a.0 ∙ v.none_waits;
  no_delay = rw (a.1, a.2) v.no_delay;
}

save-same :
    (p q : PipeCache) (addr : ℕ) → save_evict_info p addr ≡ some q → Alike p q × (q.pipe ≡ p.pipe)
unfolding save_evict_info
save-same p q addr h = grind arith

pub locate-held :
    (p q : PipeCache) (bk : Entry) (r : Ref) (now : ℕ)
    → back p.pipe ≡ some (some bk)
    → locate p bk now ≡ some (r, q)
    → Alike p q × (held q.pipe ≡ held p.pipe) × ((e : Entry) × (back q.pipe ≡ some (some e)))
unfolding locate
locate-held p q bk r now b h =
    let (p1, e1, k1) = >>=-eq-some (save_evict_info p bk.addr) _ h in
    let ((r', base), e2, k2) = >>=-eq-some (access p1.base bk.addr now) _ k1 in
    let (alike, same) = save-same p p1 bk.addr e1 in
    let at_end : back p1.pipe ≡ some (some bk) = ap back same ∙ b in
    let f : Entry = record bk { line = some r' } in
    subst-some
      (λ x.
        Alike p x.1
        × (held x.1.pipe ≡ held p.pipe)
        × ((e : Entry) × (back x.1.pipe ≡ some (some e))))
      k2
      (
        alike,
        held-kept p1.pipe bk f at_end ∙ ap held same,
        (f, back-set_back p1.pipe (some bk) (some f) at_end),
      )

-- The request at hand is answered, and stays in the pipe.
abbrev Answered : PipeCache → PipeCache × List Event → Type 0
Answered p x = Alike p x.0 × (x.0.pipe ≡ p.pipe) × (answers x.1 ≡ 1)

respond-Answered :
    (p : PipeCache) (t : CpuTrans) (now : ℕ) → IsPrompt p → Answered p (respond p t now)
unfolding respond
respond-Answered p t now v = rw v.no_delay ((refl, refl, refl), refl, refl)

hit_as-Answered :
    (p : PipeCache) (bk : Entry) (r : Ref) (l : Line) (now : ℕ) (mop : MemRwOpt)
    → IsPrompt p
    → Ensures (hit_as p bk r l now mop) (Answered p)
unfolding hit_as
hit_as-Answered p bk r l now read v =
    Ensures-bind (Answered p) (at_aligned l (offset_of p.base bk.addr)) _
      (λ dt _. respond-Answered p (resp_of bk.addr dt p.base.cache_id read) now v)
hit_as-Answered p bk r l now write v =
    let dt = merge (strb_extend bk.wrstrb) bk.wrdata bk.wrdata in
    Ensures-bind (Answered p) (put_line p.base r (record l { dirty = true })) _ (λ base _.
      respond-Answered (record p { base = base }) (resp_of bk.addr dt p.base.cache_id write) now
        (record { none_waits = v.none_waits; no_delay = v.no_delay }))

handle_hit-Answered :
    (p : PipeCache) (bk : Entry) (r : Ref) (now : ℕ)
    → IsPrompt p
    → Ensures (handle_hit p bk r now) (Answered p)
unfolding handle_hit
handle_hit-Answered p bk r now v = Ensures-bind (Answered p) (line_at p.base r) _ (λ l _.
    hit_as-Answered (record p { blocked_until = incr now }) bk r l now bk.mop
      (record { none_waits = v.none_waits; no_delay = v.no_delay }))

-- What leaves the pipe is answered.
abbrev pub Balances : PipeCache → PipeCache × List Event → Type 0
Balances p x = Alike p x.0 × (held p.pipe ≡ held x.0.pipe + answers x.1)

-- The end of the pipe is taken.
abbrev IsTaken : PipeCache → Type 0
IsTaken p = (e : Entry) × (back p.pipe ≡ some (some e))

-- The same, with the end of the pipe free.
abbrev Clears : PipeCache → PipeCache × List Event → Type 0
Clears p x = Balances p x × (back x.0.pipe ≡ some none)

leave-Clears :
    (p q : PipeCache) (out : List Event)
    → IsTaken p
    → Answered p (q, out)
    → Clears p (record q { pipe = set_back q.pipe none }, out)
leave-Clears p q out (e, b) (a, same, n) =
    let at_end : back q.pipe ≡ some (some e) = ap back same ∙ b in
    (
      (a, omega (arith, held-served q.pipe e at_end, ap held same, n)),
      back-set_back q.pipe (some e) none at_end,
    )

serve_hit-Clears :
    (p : PipeCache) (bk : Entry) (r : Ref) (was_miss : Bool) (now : ℕ)
    → IsPrompt p
    → IsTaken p
    → Ensures (serve_hit p bk r was_miss now) (Clears p)
unfolding serve_hit
serve_hit-Clears p bk r was_miss now v b =
    Ensures-bind (Clears p) (handle_hit p bk r now) _ (λ (p1, out) e1.
      let a = Ensures-elim (Answered p) _ (p1, out) (handle_hit-Answered p bk r now v) e1 in
      let fetch = handle_prefetch p1.base bk.addr (not was_miss) now in
      let prefetched = (do (issued, base) ← fetch; some (record p1 { base = base })) in
      let may = may_prefetch p1 bk.mop in
      let same : Ensures (if may then prefetched else some p1) (λ q. Answered p (q, out)) =
        Ensures-if (λ q. Answered p (q, out)) may prefetched (some p1)
          (λ _. Ensures-bind (λ q. Answered p (q, out)) fetch _ (λ y _. a)) (λ _. a) in
      Ensures-bind (Clears p) (if may then prefetched else some p1) _
        (λ p2 e2. leave-Clears p p2 out b (Ensures-elim (λ q. Answered p (q, out)) _ p2 same e2)))

serve_miss-Balances : (p : PipeCache) (bk : Entry) (now : ℕ) → Balances p (serve_miss p bk now)
unfolding serve_miss
serve_miss-Balances p bk now = ground arith

-- The last entry is served, or keeps its place in a pipe that waits.
abbrev pub Serves : PipeCache → Bool × PipeCache × List Event → Type 0
Serves p y = Balances p (y.1, y.2) × (y.0 ≡ true → back y.1.pipe ≡ some none)

located-held :
    (p : PipeCache) (bk : Entry) (now : ℕ) (o : Option Ref)
    → back p.pipe ≡ some (some bk)
    → Ensures (located p bk now o) (λ (r, q). Alike p q × (held q.pipe ≡ held p.pipe) × IsTaken q)
unfolding located
located-held p bk now none b =
    Ensures-all (locate p bk now) (λ (r, q) h. locate-held p q bk r now b h)
located-held p bk now (some r) b = ((refl, refl, refl), refl, (bk, b))

-- A change before the balance that keeps the requests.
pub after-Balances :
    (p q : PipeCache) (x : PipeCache × List Event)
    → Alike p q
    → held q.pipe ≡ held p.pipe
    → Balances q x
    → Balances p x
after-Balances p q x a same (b, n) = ((b.0 ∙ a.0, b.1 ∙ a.1, b.2 ∙ a.2), omega (arith, same, n))

serve-Serves :
    (p : PipeCache) (bk : Entry) (now : ℕ)
    → IsPrompt p
    → back p.pipe ≡ some (some bk)
    → Ensures (serve p bk now) (Serves p)
unfolding serve
serve-Serves p bk now v b = Ensures-bind (Serves p) (located p bk now bk.line) _ (λ (r, p1) e1.
    let (alike, same, taken) =
      Ensures-elim (λ (r, q). Alike p q × (held q.pipe ≡ held p.pipe) × IsTaken q) _ (r, p1)
        (located-held p bk now bk.line b) e1 in
    let p2 = record p1 { is_replay = false } in
    let w = Alike-IsPrompt p p2 alike v in
    Ensures-bind (Serves p) (line_at p1.base r) _ (λ l _.
      Ensures-then (Serves p) (not p1.is_replay || l.valid) _ (λ _.
        Ensures-if (Serves p) l.valid _ _
          (λ _. Ensures-bind (Serves p) (serve_hit p2 bk r p1.is_replay now) _ (λ x e.
            let (bal, free) =
              Ensures-elim (Clears p2) _ x (serve_hit-Clears p2 bk r p1.is_replay now w taken) e in
            (after-Balances p p2 x alike same bal, λ _. free)))
          (λ _. (
            after-Balances p p2 (serve_miss p2 bk now) alike same (serve_miss-Balances p2 bk now),
            λ e. cc,
          )))))

pub serve_back-Serves :
    (p : PipeCache) (o : Option Entry) (now : ℕ)
    → IsPrompt p
    → back p.pipe ≡ some o
    → Ensures (serve_back p o now) (Serves p)
unfolding serve_back
serve_back-Serves p none now v b = (((refl, refl, refl), omega arith), λ _. b)
serve_back-Serves p (some bk) now v b = serve-Serves p bk now v b
