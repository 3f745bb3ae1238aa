-- ===== src/Cache/PipeCache/Update/Pipe.antt =====
-- The entries in the pipe of `PipeCache`.
use ysyx_np_sim.Prelude.{
  ℕ, suc, ◌+◌, ◌≡◌, refl, true, Option, none, some, List, [], ◌∷◌, map, arith, ap,
}
use ysyx_np_sim.Cache.PipeCache.{Entry, back}
use ysyx_np_sim.Cache.PipeCache.Update.{set_back, all_empty, shift_from, shift_pipe}

-- How many requests are in the pipe.
abbrev pub held : List (Option Entry) → ℕ
held [] = 0
held (none ∷ es) = held es
held (some e ∷ es) = suc (held es)

abbrev one_or_none : Option Entry → ℕ
one_or_none none = 0
one_or_none (some e) = 1

held-cons : (o : Option Entry) (es : List (Option Entry)) → held (o ∷ es) ≡ one_or_none o + held es
held-cons none es = omega arith
held-cons (some e) es = omega arith

held-set_back :
    (es : List (Option Entry)) (o p : Option Entry)
    → back es ≡ some o
    → held (set_back es p) + one_or_none o ≡ held es + one_or_none p
unfolding back set_back
held-set_back [] o p h = cc
held-set_back (f ∷ []) o p h = omega (arith, held-cons p [], held-cons f [], ap held_of h)
  where
    held_of : Option (Option Entry) → ℕ
    held_of none = 0
    held_of (some q) = one_or_none q
held-set_back (f ∷ g ∷ es) o p h =
    omega
      (arith, held-set_back (g ∷ es) o p h, held-cons f (set_back (g ∷ es) p), held-cons f (g ∷ es))

-- A request at the end of the pipe is served and leaves it.
pub held-served :
    (es : List (Option Entry)) (e : Entry)
    → back es ≡ some (some e)
    → held es ≡ held (set_back es none) + 1
held-served es e h = omega (arith, held-set_back es (some e) none h)

pub held-kept :
    (es : List (Option Entry)) (e f : Entry)
    → back es ≡ some (some e)
    → held (set_back es (some f)) ≡ held es
held-kept es e f h = omega (arith, held-set_back es (some e) (some f) h)

pub back-set_back :
    (es : List (Option Entry)) (o p : Option Entry)
    → back es ≡ some o
    → back (set_back es p) ≡ some p
unfolding back set_back
back-set_back [] o p h = cc
back-set_back (f ∷ []) o p h = refl
back-set_back (f ∷ g ∷ []) o p h = refl
back-set_back (f ∷ g ∷ k ∷ es) o p h = back-set_back (g ∷ k ∷ es) o p h

held-shift_from :
    (o : Option Entry) (es : List (Option Entry))
    → back (o ∷ es) ≡ some none
    → held (shift_from o es) ≡ held (o ∷ es)
unfolding back shift_from
held-shift_from none [] h = refl
held-shift_from (some e) [] h = cc
held-shift_from o (f ∷ es) h =
    omega (arith, held-cons o (shift_from f es), held-cons o (f ∷ es), held-shift_from f es h)

-- With its end free, the pipe moves on and drops no request.
pub held-shift : (es : List (Option Entry)) → back es ≡ some none → held (shift_pipe es) ≡ held es
unfolding back shift_pipe
held-shift [] h = refl
held-shift (e ∷ []) h = refl
held-shift (e ∷ f ∷ es) h = held-shift_from e (f ∷ es) h

pub held-empty : (es : List (Option Entry)) → all_empty es ≡ true → held es ≡ 0
unfolding all_empty
held-empty [] h = refl
held-empty (none ∷ es) h = held-empty es h
held-empty (some e ∷ es) h = cc

pub held-cleared : (es : List (Option Entry)) → held (map (λ e. none) es) ≡ 0
held-cleared [] = refl
held-cleared (e ∷ es) = held-cleared es
