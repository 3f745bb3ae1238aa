-- ===== src/Cache/Base/Refill.antt =====
-- What a refill leaves in a cache, and what a wrong-path fill does.
use ysyx_np_sim.Prelude.{
  Returns-elim, ℕ, ◌≡◌, ◌<◌, ◌==◌, refl, sym, ap, ◌∙◌, true, some, ◌>>=◌, arith, get_elem?_of_lt,
  Returns, Returns-bind,
}
use ysyx_np_sim.Cache.Line.{Line, activate}
use ysyx_np_sim.Cache.Policy.{on_fill}
use ysyx_np_sim.Cache.Policy.Valid.{Fits, Same, on_fill-Fits}
use ysyx_np_sim.Cache.Base.{Cache, Ref, access, probe, handle_fill, set_index_of, tag_of}
use ysyx_np_sim.Cache.Base.Shape.{
  IsValid, Alike, set_index_of-lt, lines_of, put_line_lem, Shape-set, find_way-set_hit,
}
use ysyx_np_sim.Cache.Base.Access.{Accessed, access-probe, line_at_lem, probe-put}

==_self : (n : ℕ) → (n == n) ≡ true
==_self n = ground arith

-- A refill of a line of the address's set.
pub handle_fill-probe :
    (c : Cache) (r : Ref) (addr now : ℕ)
    → IsValid c
    → r.set_idx ≡ set_index_of c addr
    → r.way < c.assoc
    → Returns (handle_fill c r addr now) (λ d. IsValid d × (probe d addr ≡ some true))
unfolding handle_fill probe
handle_fill-probe c r addr now v in_set within =
    let si_lt = set_index_of-lt c addr v in
    let (lines, e, sized) = lines_of c r.set_idx v (rw in_set si_lt) in
    let (l, found) = get_elem?_of_lt lines r.way (omega arith) in
    rw (in_set_test, line_at_lem c r lines e, found)
      (Returns-bind (λ q. Fits c.sets c.assoc q.0 × Same (tagged l) q.1) _
        (on_fill c.repl_policy r.set_idx r.way (tagged l) now) _
        (on_fill-Fits c.sets c.assoc r.set_idx r.way now c.repl_policy (tagged l) v.fits
          (rw in_set si_lt))
        (λ q k. rw (put_line_lem (record c { repl_policy = q.0 }) r q.1 lines e (omega arith)) (
          Shape-set q.0 c.lag_set_idx r.set_idx r.way lines q.1 v k.0 v.lag_lt sized,
          probe-put (record c { repl_policy = q.0 }) r addr q.1 lines in_set e
              ∙ ap some (
                  find_way-set_hit (tag_of c addr) lines r.way q.1 (omega arith)
                    (rw (k.1.1, k.1.0) (==_self (tag_of c addr)))),
        )))
  where
    tagged : Line → Line
    tagged l = record (activate l now) { tag = tag_of c addr }

    in_set_test : (r.set_idx == set_index_of c addr) ≡ true
    in_set_test = rw in_set (==_self (set_index_of c addr))

pub Alike-set_index_of :
    (c d : Cache) (addr : ℕ) → Alike c d → set_index_of d addr ≡ set_index_of c addr
Alike-set_index_of c d addr a = rw (a.0, a.1) refl

-- After an access of a well-formed cache and a refill of the line that it returned, at any later
-- tick, the address is present, whether the access was a hit or a miss; none of the three faults.
pub access-handle_fill :
    (c : Cache) (addr now later : ℕ)
    → IsValid c
    → Returns
        (do (r, c1) ← access c addr now; c2 ← handle_fill c1 r addr later; probe c2 addr)
        (λ found. found ≡ true)
access-handle_fill c addr now later v =
    let (found, e, ok) = Returns-elim _ (probe c addr) (access-probe c addr now v) in
    Returns-bind (λ q. Accessed c addr found q.0 q.1) _ (access c addr now) _ ok
      (λ q a.
        Returns-bind (λ d. IsValid d × (probe d addr ≡ some true)) _
          (handle_fill q.1 q.0 addr later) _
          (handle_fill-probe q.1 q.0 addr later a.valid
            (a.in_set ∙ sym (Alike-set_index_of c q.1 addr a.alike)) a.way_lt)
          (λ d h. rw h.1 refl))
