-- ===== src/Cache/Base/Access.antt =====
-- Lookup, miss and refill of a well-formed cache.
use ysyx_np_sim.Prelude.{
  ap, ◌∙◌, ==_iff, sym, ◌==◌, ◌&&◌, ℕ, ◌%◌, ◌<◌, ◌≡◌, refl, Bool, true, false, Option, none, some,
  List, arith, if◌then◌else◌, lt→ltb, length, get_elem?, set, get_elem?_of_lt, get_elem?-lt,
  get_elem?-set_self, Returns, Returns-bind, incr,
}
use native.Mathlib.Nat.{mod-lt}
use ysyx_np_sim.Cache.Line.{Line, invalidate}
use ysyx_np_sim.Cache.Policy.{Policy, on_hit}
use ysyx_np_sim.Cache.Policy.Valid.{Fits, Same, on_hit-Fits}
use ysyx_np_sim.Cache.Base.{
  Cache, Ref, holds, find_way, miss_victim_way, latch, line_at, count_useful, access_hit,
  access_miss, access_at, access, is_found, probe, set_index_of, tag_of,
}
use ysyx_np_sim.Cache.Base.Shape.{
  find_way-set_hit, find_way-set_miss, IsValid, Alike, set_index_of-lt, lines_of, put_line_lem,
  Shape-set, find_way-some,
}
use ysyx_np_sim.Cache.Base.Victim.{miss_victim_way-lt, latch-lt, count_useful-Same}

-- What an access leaves: the line that it points at is valid, with the address's tag, just when the
-- access was a hit, and either `hits` or `misses` counts it. A lookup finds what it found before.
pub record Accessed (c : Cache) (addr : ℕ) (found : Bool) (r : Ref) (d : Cache) : Type 0 where
  pub valid : IsValid d
  pub alike : Alike c d
  pub in_set : r.set_idx ≡ set_index_of c addr
  pub way_lt : r.way < d.assoc
  pub accesses : d.accesses ≡ incr c.accesses
  pub hits : d.hits ≡ (if found then incr c.hits else c.hits)
  pub misses : d.misses ≡ (if found then c.misses else incr c.misses)
  pub line :
      Returns
        (line_at d r)
        (λ l. (l.valid ≡ found) × (l.tag ≡ (if found then tag_of c addr else 0)))
  pub present : probe d addr ≡ some found

holds-Same :
    (tag : ℕ) (l k : Line) → Same l k → holds tag l ≡ true → (k.valid ≡ true) × (k.tag ≡ tag)
holds-Same tag l k s h = go l.valid h s.1
  where
    go : (b : Bool) → (b && l.tag == tag) ≡ true → k.valid ≡ b → (k.valid ≡ true) × (k.tag ≡ tag)
    go true h e = (e, s.0 ∙ (==_iff l.tag tag).0 h)
    go false h e = cc

has_tag : (tag : ℕ) (l : Line) → (l.valid ≡ true) × (l.tag ≡ tag) → holds tag l ≡ true
has_tag tag l h = rw (h.0, h.1) (ground arith)

pub probe_lem :
    (c : Cache) (addr : ℕ) (lines : List Line)
    → get_elem? c.sets_arr (set_index_of c addr) ≡ some lines
    → probe c addr ≡ some (is_found (find_way (tag_of c addr) lines))
unfolding probe
probe_lem c addr lines e = rw e refl

-- A lookup in a cache with a line replaced.
pub probe-put :
    (c : Cache) (r : Ref) (addr : ℕ) (l : Line) (lines : List Line)
    → r.set_idx ≡ set_index_of c addr
    → get_elem? c.sets_arr r.set_idx ≡ some lines
    → probe (record c { sets_arr = set c.sets_arr r.set_idx (set lines r.way l) }) addr
      ≡ some (is_found (find_way (tag_of c addr) (set lines r.way l)))
unfolding probe
probe-put c r addr l lines in_set e =
    rw
      (
        sym in_set,
        get_elem?-set_self c.sets_arr r.set_idx (set lines r.way l)
            (get_elem?-lt c.sets_arr r.set_idx e),
      )
      refl

-- The line that was put is the line that is read.
pub line_at-put :
    (c : Cache) (r : Ref) (l : Line) (lines : List Line)
    → get_elem? c.sets_arr r.set_idx ≡ some lines
    → r.way < length lines
    → line_at (record c { sets_arr = set c.sets_arr r.set_idx (set lines r.way l) }) r ≡ some l
unfolding line_at
line_at-put c r l lines e h =
    rw
      (get_elem?-set_self c.sets_arr r.set_idx (set lines r.way l)
        (get_elem?-lt c.sets_arr r.set_idx e))
      (get_elem?-set_self lines r.way l h)

access_hit-Accessed :
    (c : Cache) (addr i now : ℕ) (l : Line) (lines : List Line)
    → IsValid c
    → get_elem? c.sets_arr (set_index_of c addr) ≡ some lines
    → length lines ≡ c.assoc
    → get_elem? lines i ≡ some l
    → holds (tag_of c addr) l ≡ true
    → Returns
        (access_hit
          (record c { accesses = incr c.accesses })
          (record { set_idx = set_index_of c addr; way = i })
          l
          now)
        (λ d. Accessed c addr true (record { set_idx = set_index_of c addr; way = i }) d)
unfolding access_hit latch is_found
access_hit-Accessed c addr i now l lines v e sized at_i h =
    Returns-bind (λ q. Fits c.sets c.assoc q.0 × Same l q.1) _ (on_hit c.repl_policy si i l now) _
      (on_hit-Fits c.sets c.assoc si i now c.repl_policy l v.fits (set_index_of-lt c addr v))
      (λ q k. rw (put_line_lem (after q) r (used q) lines e within) (record {
        valid =
            Shape-set q.0 _ si i lines _ v k.0 (latch-lt c si v (set_index_of-lt c addr v)) sized;
        alike = (refl, refl, refl);
        in_set = refl;
        way_lt = small;
        accesses = refl;
        hits = refl;
        misses = refl;
        line = rw (line_at-put (after q) r (used q) lines e within) (tagged q k.1);
        present =
            probe-put (after q) r addr (used q) lines refl e
            ∙ ap some (
                find_way-set_hit (tag_of c addr) lines i (used q) within
                  (has_tag (tag_of c addr) (used q) (tagged q k.1)));
      }))
  where
    si : ℕ
    si = set_index_of c addr

    used : Policy × Line → Line
    used q = (count_useful c.prefetcher q.1).1

    tagged :
        (q : Policy × Line) → Same l q.1 → ((used q).valid ≡ true) × ((used q).tag ≡ tag_of c addr)
    tagged q k = holds-Same (tag_of c addr) l (used q) (count_useful-Same c.prefetcher l q.1 k) h

    after : Policy × Line → Cache
    after q = record (latch (record c { accesses = incr c.accesses }) si) {
      repl_policy = q.0;
      hits = incr c.hits;
      prefetcher = (count_useful c.prefetcher q.1).0;
    }

    r : Ref
    r = record { set_idx = si; way = i }

    within : i < length lines
    within = get_elem?-lt lines i at_i

    small : i < c.assoc
    small = omega (arith, within, sized)

pub line_at_lem :
    (c : Cache) (r : Ref) (lines : List Line)
    → get_elem? c.sets_arr r.set_idx ≡ some lines
    → line_at c r ≡ get_elem? lines r.way
unfolding line_at
line_at_lem c r lines e = rw e refl

access_miss-Accessed :
    (c : Cache) (addr : ℕ) (lines : List Line)
    → IsValid c
    → get_elem? c.sets_arr (set_index_of c addr) ≡ some lines
    → length lines ≡ c.assoc
    → find_way (tag_of c addr) lines ≡ none
    → Returns
        (access_miss (record c { accesses = incr c.accesses }) (set_index_of c addr))
        (λ q. Accessed c addr false q.0 q.1)
unfolding access_miss latch is_found
access_miss-Accessed c addr lines v e sized absent = rw (lt→ltb 0 c.assoc v.assoc_pos) (
    Returns-bind (λ w. w < c.assoc) _ (miss_victim_way (record c { accesses = incr c.accesses }) si)
      _
      (miss_victim_way-lt (record c { accesses = incr c.accesses }) si v (set_index_of-lt c addr v))
      (λ w h.
        let (l, found) = get_elem?_of_lt lines (w % c.assoc) (small w) in
        rw
          (
            line_at_lem (record c { accesses = incr c.accesses }) (victim w) lines e,
            found,
            put_line_lem after (victim w) (invalidate l) lines e (small w),
          )
          (record {
            valid =
                Shape-set c.repl_policy _ si (w % c.assoc) lines (invalidate l) v v.fits
                  (latch-lt c si v (set_index_of-lt c addr v)) sized;
            alike = (refl, refl, refl);
            in_set = refl;
            way_lt = mod-lt w v.assoc_pos;
            accesses = refl;
            hits = refl;
            misses = refl;
            line = rw (line_at-put after (victim w) (invalidate l) lines e (small w)) (refl, refl);
            present =
                probe-put after (victim w) addr (invalidate l) lines refl e
                ∙ ap (λ o. some (is_found o))
                    (find_way-set_miss (tag_of c addr) lines (w % c.assoc) (invalidate l) absent
                      refl);
          })))
  where
    si : ℕ
    si = set_index_of c addr

    small : (w : ℕ) → w % c.assoc < length lines
    small w = rw sized (mod-lt w v.assoc_pos)

    victim : ℕ → Ref
    victim w = record { set_idx = si; way = w % c.assoc }

    after : Cache
    after = record (latch (record c { accesses = incr c.accesses }) si) { misses = incr c.misses }

pub access-probe :
    (c : Cache) (addr now : ℕ)
    → IsValid c
    → Returns
        (probe c addr)
        (λ found. Returns (access c addr now) (λ q. Accessed c addr found q.0 q.1))
unfolding probe access access_at is_found
access-probe c addr now v =
    let (lines, e, sized) = lines_of c (set_index_of c addr) v (set_index_of-lt c addr v) in
    rw e (by_way lines e sized (find_way (tag_of c addr) lines) refl)
  where
    by_way :
        (lines : List Line)
        → get_elem? c.sets_arr (set_index_of c addr) ≡ some lines
        → length lines ≡ c.assoc
        → (o : Option ℕ) → find_way (tag_of c addr) lines ≡ o
        → Returns
            (access_at (record c { accesses = incr c.accesses }) (set_index_of c addr) lines o now)
            (λ q. Accessed c addr (is_found o) q.0 q.1)
    by_way lines e sized none found = access_miss-Accessed c addr lines v e sized found
    by_way lines e sized (some i) found =
        let (l, at_i, h) = find_way-some (tag_of c addr) lines i found in
        rw at_i (
          Returns-bind _ _
            (access_hit (record c { accesses = incr c.accesses })
              (record { set_idx = set_index_of c addr; way = i }) l now)
            _ (access_hit-Accessed c addr i now l lines v e sized at_i h) (λ d a. a))
