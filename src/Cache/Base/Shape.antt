-- ===== src/Cache/Base/Shape.antt =====
-- Well-formed caches, and the search for a tag in a set.
use ysyx_np_sim.Prelude.{
  ℕ, zero, suc, ◌^◌, ◌<◌, ◌≡◌, refl, ap, ◌∙◌, Bool, true, false, inl, inr, Option, none, some, List,
  [], ◌∷◌, ◌>>=◌, arith, if◌then◌else◌, length, get_elem?, set, All, All-get_elem?, All-set,
  get_elem?_of_lt, get_elem?-lt, set_at_of_lt, length-set, bit_and-mask, power_pos, ◌⊎◌, shr,
}
use native.Mathlib.Nat.{mod-lt}
use ysyx_np_sim.Cache.Line.{Line}
use ysyx_np_sim.Cache.Policy.{Policy}
use ysyx_np_sim.Cache.Policy.Valid.{Fits}
use ysyx_np_sim.Cache.Base.{Cache, Ref, holds, find_way, put_line, is_found, set_index_of}

-- A cache of `sets` sets, a power of two, of `assoc` lines each.
pub record Shape (sets assoc lag : ℕ) (arr : List (List Line)) (policy : Policy) : Type 0 where
  pub bits : ℕ
  pub sets_pow : sets ≡ 2 ^ bits
  pub assoc_pos : 0 < assoc
  pub arr_length : length arr ≡ sets
  pub ways : All (λ ls. length ls ≡ assoc) arr
  pub fits : Fits sets assoc policy
  pub lag_lt : lag < sets

abbrev pub IsValid : Cache → Type 0
IsValid c = Shape c.sets c.assoc c.lag_set_idx c.sets_arr c.repl_policy

-- Two caches of one geometry.
abbrev pub Alike : Cache → Cache → Type 0
Alike c d = (d.sets ≡ c.sets) × (d.offset_bits ≡ c.offset_bits) × (d.line_bytes ≡ c.line_bytes)

pub set_index_of-lt : (c : Cache) (addr : ℕ) → IsValid c → set_index_of c addr < c.sets
set_index_of-lt c addr v =
    rw (v.sets_pow, bit_and-mask v.bits (shr addr c.offset_bits))
      (mod-lt (shr addr c.offset_bits) (power_pos v.bits))

pub lines_of :
    (c : Cache) (si : ℕ)
    → IsValid c
    → si < c.sets
    → (lines : List Line) × (get_elem? c.sets_arr si ≡ some lines) × (length lines ≡ c.assoc)
lines_of c si v h =
    let (lines, e) = get_elem?_of_lt c.sets_arr si (rw v.arr_length h) in
    (lines, e, All-get_elem? _ c.sets_arr si v.ways e)

pub put_line_lem :
    (c : Cache) (r : Ref) (l : Line) (lines : List Line)
    → get_elem? c.sets_arr r.set_idx ≡ some lines
    → r.way < length lines
    → put_line c r l ≡ some (record c { sets_arr = set c.sets_arr r.set_idx (set lines r.way l) })
unfolding put_line
put_line_lem c r l lines e h =
    rw
      (
        e,
        set_at_of_lt lines r.way l h,
        set_at_of_lt c.sets_arr r.set_idx (set lines r.way l) (get_elem?-lt c.sets_arr r.set_idx e),
      )
      refl

-- A line that is replaced keeps the shape.
pub Shape-set :
    {sets assoc lag : ℕ} {arr : List (List Line)} {policy : Policy} (policy' : Policy)
    (lag' si w : ℕ) (lines : List Line) (l : Line)
    → Shape sets assoc lag arr policy
    → Fits sets assoc policy'
    → lag' < sets
    → length lines ≡ assoc
    → Shape sets assoc lag' (set arr si (set lines w l)) policy'
Shape-set {arr = arr} policy' lag' si w lines l v f k e = record {
  bits = v.bits;
  sets_pow = v.sets_pow;
  assoc_pos = v.assoc_pos;
  arr_length = length-set arr si (set lines w l) ∙ v.arr_length;
  ways = All-set _ arr si (set lines w l) v.ways (length-set lines w l ∙ e);
  fits = f;
  lag_lt = k;
}

-- One step of `find_way`.
abbrev or_later : Bool → Option ℕ → Option ℕ
or_later b o = if b then some 0 else (o >>= λ i. some (suc i))

or_later-found : (b : Bool) (o : Option ℕ) → is_found o ≡ true → is_found (or_later b o) ≡ true
unfolding is_found
or_later-found true o h = refl
or_later-found false none h = h
or_later-found false (some i) h = refl

or_later-none : (b : Bool) (o : Option ℕ) → or_later b o ≡ none → (b ≡ false) × (o ≡ none)
or_later-none true o h = cc
or_later-none false none h = (refl, refl)
or_later-none false (some i) h = cc

or_later-some :
    (b : Bool) (o : Option ℕ) (i : ℕ)
    → or_later b o ≡ some i
    → ((b ≡ true) × (i ≡ 0)) ⊎ ((j : ℕ) × (o ≡ some j) × (i ≡ suc j))
or_later-some true o i h = inl (refl, cc)
or_later-some false none i h = cc
or_later-some false (some j) i h = inr (j, refl, cc)

pub find_way-some :
    (tag : ℕ) (ls : List Line) (i : ℕ)
    → find_way tag ls ≡ some i
    → (l : Line) × (get_elem? ls i ≡ some l) × (holds tag l ≡ true)
unfolding find_way
find_way-some tag [] i e = cc
find_way-some tag (l ∷ ls) i e = elim (or_later-some (holds tag l) (find_way tag ls) i e) [
  | inl here ↦ (l, rw here.1 refl, here.0)
  | inr (j, found, z) ↦ let (k, at_j, h) = find_way-some tag ls j found in (k, rw z at_j, h)
]

pub find_way-set_hit :
    (tag : ℕ) (ls : List Line) (i : ℕ) (l : Line)
    → i < length ls
    → holds tag l ≡ true
    → is_found (find_way tag (set ls i l)) ≡ true
unfolding find_way is_found
find_way-set_hit tag [] i l h e = absurd (omega arith)
find_way-set_hit tag (k ∷ ls) zero l h e = ap (λ b. is_found (or_later b (find_way tag ls))) e
find_way-set_hit tag (k ∷ ls) (suc i) l h e =
    or_later-found (holds tag k) (find_way tag (set ls i l))
      (find_way-set_hit tag ls i l (omega arith) e)

pub find_way-set_miss :
    (tag : ℕ) (ls : List Line) (i : ℕ) (l : Line)
    → find_way tag ls ≡ none
    → holds tag l ≡ false
    → find_way tag (set ls i l) ≡ none
unfolding find_way
find_way-set_miss tag [] i l n e = refl
find_way-set_miss tag (k ∷ ls) zero l n e =
    let (miss, rest) = or_later-none (holds tag k) (find_way tag ls) n in
    ap (λ b. or_later b (find_way tag ls)) e ∙ ap (or_later false) rest
find_way-set_miss tag (k ∷ ls) (suc i) l n e =
    let (miss, rest) = or_later-none (holds tag k) (find_way tag ls) n in
    ap (λ b. or_later b (find_way tag (set ls i l))) miss
    ∙ ap (or_later false) (find_way-set_miss tag ls i l rest e)
