-- ===== src/Debug/Flags.antt =====
-- What `set_flags` of defines/debug.hh turns on.
use ysyx_np_sim.Prelude.{
  ℕ, ◌/◌, ◌%◌, zero, suc, max, ◌≡◌, refl, ◌∙◌, ap, List, [], ◌∷◌, ◌++◌, arith, bit_or, bit_or_step,
}
use ysyx_np_sim.Options.{same}
use ysyx_np_sim.Debug.{
  Flag, value, set_flags, set_flag, set_segments, segments, push, flag_named, cache, branch_pred,
  pipeline, if_queue, ld_queue, st_queue, ls_unit, mem, main, clock, event, all, flag_none,
  cache_text, branch_pred_text, pipeline_text, if_queue_text, ld_queue_text, st_queue_text,
  ls_unit_text, mem_text, main_text, clock_text, event_text, all_text,
}

-- Bit `i`, 0 or 1.
abbrev pub bit : ℕ → ℕ → ℕ
bit zero w = w % 2
bit (suc i) w = bit i (w / 2)

bit-bit_or : (i v w : ℕ) → bit i (bit_or v w) ≡ max (bit i v) (bit i w)
bit-bit_or zero v w = omega (arith, bit_or_step v w)
bit-bit_or (suc i) v w = ap (bit i) (omega (arith, bit_or_step v w)) ∙ bit-bit_or i (v / 2) (w / 2)

bit-no : (i : ℕ) → bit i 0 ≡ 0
bit-no zero = refl
bit-no (suc i) = bit-no i

-- The flags that have a name; `None` has none.
abbrev pub name : Flag → List ℕ
name flag_none = []
name cache = cache_text
name branch_pred = branch_pred_text
name pipeline = pipeline_text
name if_queue = if_queue_text
name ld_queue = ld_queue_text
name st_queue = st_queue_text
name ls_unit = ls_unit_text
name mem = mem_text
name main = main_text
name clock = clock_text
name event = event_text
name all = all_text

-- The names, with commas between them.
abbrev pub joined : List Flag → List ℕ
joined [] = []
joined (f ∷ []) = name f
joined (f ∷ g ∷ fs) = name f ++ (b',' ∷ joined (g ∷ fs))

-- Whether one of the flags has bit `i`.
abbrev pub any_bit : ℕ → List Flag → ℕ
any_bit i [] = 0
any_bit i (f ∷ fs) = max (bit i (value f)) (any_bit i fs)

named-name :
    (f : Flag) (i e : ℕ)
    → bit i (set_flag e (flag_named (name f))) ≡ max (bit i e) (bit i (value f))
unfolding set_flag same
named-name flag_none i e = omega (arith, bit-no i)
named-name cache i e = bit-bit_or i e (value cache)
named-name branch_pred i e = bit-bit_or i e (value branch_pred)
named-name pipeline i e = bit-bit_or i e (value pipeline)
named-name if_queue i e = bit-bit_or i e (value if_queue)
named-name ld_queue i e = bit-bit_or i e (value ld_queue)
named-name st_queue i e = bit-bit_or i e (value st_queue)
named-name ls_unit i e = bit-bit_or i e (value ls_unit)
named-name mem i e = bit-bit_or i e (value mem)
named-name main i e = bit-bit_or i e (value main)
named-name clock i e = bit-bit_or i e (value clock)
named-name event i e = bit-bit_or i e (value event)
named-name all i e = bit-bit_or i e (value all)

segments-last :
    (f : Flag) (e : ℕ) → set_segments e (segments (name f)) ≡ set_flag e (flag_named (name f))
unfolding segments push set_segments set_flag same
segments-last flag_none e = refl
segments-last cache e = refl
segments-last branch_pred e = refl
segments-last pipeline e = refl
segments-last if_queue e = refl
segments-last ld_queue e = refl
segments-last st_queue e = refl
segments-last ls_unit e = refl
segments-last mem e = refl
segments-last main e = refl
segments-last clock e = refl
segments-last event e = refl
segments-last all e = refl

segments-name : (f : Flag) (t : List ℕ) → segments (name f ++ (b',' ∷ t)) ≡ name f ∷ segments t
unfolding segments push
segments-name flag_none t = refl
segments-name cache t = refl
segments-name branch_pred t = refl
segments-name pipeline t = refl
segments-name if_queue t = refl
segments-name ld_queue t = refl
segments-name st_queue t = refl
segments-name ls_unit t = refl
segments-name mem t = refl
segments-name main t = refl
segments-name clock t = refl
segments-name event t = refl
segments-name all t = refl

-- A text of flag names turns on the bits of these flags and changes no other: after `set_flags`, any
-- bit is on exactly when it was on before or one of the named flags has it, in whatever order and
-- however often they are named.
pub set_flags-joined :
    (fs : List Flag) (enabled i : ℕ)
    → bit i (set_flags enabled (joined fs)) ≡ max (bit i enabled) (any_bit i fs)
unfolding set_flags segments set_segments
set_flags-joined [] e i = omega arith
set_flags-joined (f ∷ []) e i = omega (arith, ap (bit i) (segments-last f e), named-name f i e)
set_flags-joined (f ∷ g ∷ fs) e i = omega (
  arith,
  ap (λ ss. bit i (set_segments e ss)) (segments-name f (joined (g ∷ fs))),
  set_flags-joined (g ∷ fs) (set_flag e (flag_named (name f))) i,
  named-name f i e,
)
