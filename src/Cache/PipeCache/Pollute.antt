-- ===== src/Cache/PipeCache/Pollute.antt =====
-- cacheSim/CacheBase.cc: `PipeCache::pollute`, the fill of a wrong-path fetch.
use ysyx_np_sim.Prelude.{
  ℕ, ◌≡◌, ◌≢◌, ◌<◌, ◌==◌, refl, sym, ◌∙◌, false, Option, none, some, ◌>>=◌, arith, length, Returns,
  Returns-elim,
}
use ysyx_np_sim.Cache.Line.{activate}
use ysyx_np_sim.Cache.Base.{
  Cache, Ref, find_way, line_at, put_line, access, is_found, probe, tag_of,
}
use ysyx_np_sim.Cache.Base.Shape.{
  IsValid, set_index_of-lt, lines_of, put_line_lem, find_way-set_miss,
}
use ysyx_np_sim.Cache.Base.Access.{Accessed, access-probe, probe_lem, probe-put}
use ysyx_np_sim.Cache.Base.Refill.{Alike-set_index_of}
use ysyx_np_sim.Cache.PipeCache.{pollute}

not_found : (o : Option ℕ) → some (is_found o) ≡ some false → o ≡ none
unfolding is_found
not_found none h = refl
not_found (some i) h = cc

stale : (n tag : ℕ) → n ≡ 0 → tag ≢ 0 → (n == tag) ≡ false
stale n tag h k = ground arith

-- The line that an access which missed returned is made valid with its tag 0.
activate-probe :
    (c d : Cache) (r : Ref) (addr now : ℕ)
    → Accessed c addr false r d
    → tag_of c addr ≢ 0
    → Returns
        (do d' ← (line_at d r >>= λ l. put_line d r (activate l now)); probe d' addr)
        (λ found. found ≡ false)
unfolding is_found
activate-probe c d r addr now a nonzero =
    let in_set = a.in_set ∙ sym (Alike-set_index_of c d addr a.alike) in
    let same_tag : tag_of d addr ≡ tag_of c addr = rw (a.alike.2) refl in
    let (lines, e, sized) =
      lines_of d r.set_idx a.valid (rw in_set (set_index_of-lt d addr a.valid)) in
    let within : r.way < length lines = omega (arith, a.way_lt, sized) in
    let (l, found, l_lem) = Returns-elim _ (line_at d r) a.line in
    let absent =
      not_found (find_way (tag_of d addr) lines)
        (sym (probe_lem d addr lines (rw⁻¹ in_set e)) ∙ a.present) in
    rw
      (
        found,
        put_line_lem d r (activate l now) lines e within,
        probe-put d r addr (activate l now) lines in_set e,
        find_way-set_miss (tag_of d addr) lines r.way (activate l now) absent
            (stale l.tag (tag_of d addr) l_lem.1 (λ z. nonzero (sym same_tag ∙ z))),
      )
      refl

-- Polluting a well-formed cache at an address that it does not hold, and whose tag is not 0, does
-- not fault, and the address is still not held: the line is valid, but its tag is 0.
pub pollute-probe :
    (c : Cache) (addr now : ℕ)
    → IsValid c
    → probe c addr ≡ some false
    → tag_of c addr ≢ 0
    → Returns (do d ← pollute c addr now; probe d addr) (λ found. found ≡ false)
unfolding pollute
pollute-probe c addr now v missing nonzero =
    let ok : Returns (access c addr now) (λ q. Accessed c addr false q.0 q.1) =
      missing_access (access-probe c addr now v) in
    let (q, e, a) = Returns-elim _ (access c addr now) ok in
    rw (missing, e) (activate-probe c q.1 q.0 addr now a nonzero)
  where
    missing_access :
        Returns
          (probe c addr)
          (λ found. Returns (access c addr now) (λ q. Accessed c addr found q.0 q.1))
        → Returns (access c addr now) (λ q. Accessed c addr false q.0 q.1)
    missing_access h = rw missing at h
