-- ===== src/Options/Decimal.antt =====
-- What `parse_size` of src/main.cc makes of a number that is written in decimal digits.
use ysyx_np_sim.Prelude.{
  ℕ, ◌+◌, ◌-◌, ◌*◌, ◌/◌, ◌%◌, ◌^◌, ◌<◌, zero, suc, ◌≡◌, refl, sym, ◌∙◌, ap, Bool, true, false, ◌&&◌,
  Option, none, some, List, [], ◌∷◌, ◌++◌, All, subst, arith, ltb, ◌==◌, if◌then◌else◌,
}
use mathlib.Core.List.{append-nil}
use ysyx_np_sim.Options.{
  Parsed, parsed, bounded, number, signed, unspaced, stoul, stoi, bounded_int, pos, is_digit,
  digits_value, same, after, before_suffix, scaled, with_unit, parse_size, kilo, kilo_upper, mega,
  byte, units,
}

-- `std::to_string`, with a bound on the number of digits.
unfoldable pub decimal_from : ℕ → ℕ → List ℕ
decimal_from zero n = []
decimal_from (suc f) n =
    let longer = decimal_from f (n / 10) ++ ((48 + n % 10) ∷ []) in
    if ltb n 10 then (48 + n) ∷ [] else longer

abbrev pub decimal : ℕ → List ℕ
decimal n = decimal_from (suc n) n

abbrev pub IsDigits : List ℕ → Type 0
IsDigits s = All (λ c. is_digit c ≡ true) s

IsDigits-append : (s : List ℕ) (c : ℕ) → IsDigits s → is_digit c ≡ true → IsDigits (s ++ (c ∷ []))
IsDigits-append [] c h k = (k, tt)
IsDigits-append (d ∷ s) c h k = (h.0, IsDigits-append s c h.1 k)

digits_value-append :
    (v : ℕ) (s : List ℕ) (c : ℕ)
    → IsDigits s
    → is_digit c ≡ true
    → digits_value v (s ++ (c ∷ [])) ≡ 10 * digits_value v s + (c - 48)
unfolding digits_value
digits_value-append v [] c h k = ground arith
digits_value-append v (d ∷ s) c h k =
    ground (arith, digits_value-append (10 * v + (d - 48)) s c h.1 k)

digit : (n : ℕ) → n < 10 → is_digit (48 + n) ≡ true
digit n h = ground arith

pub decimal_from-IsDigits : (f n : ℕ) → IsDigits (decimal_from f n)
unfolding decimal_from
decimal_from-IsDigits zero n = tt
decimal_from-IsDigits (suc f) n = go (ltb n 10) refl (decimal_from-IsDigits f (n / 10))
  where
    go :
        (b : Bool)
        → ltb n 10 ≡ b
        → IsDigits (decimal_from f (n / 10))
        → IsDigits (if b then (48 + n) ∷ [] else decimal_from f (n / 10) ++ ((48 + n % 10) ∷ []))
    go true e h = (digit n (ground arith), tt)
    go false e h =
        IsDigits-append (decimal_from f (n / 10)) (48 + n % 10) h (digit (n % 10) (omega arith))

digits_value-one : (c : ℕ) → is_digit c ≡ true → digits_value 0 (c ∷ []) ≡ c - 48
unfolding digits_value
digits_value-one c h = ground arith

digits_value-decimal : (f n : ℕ) → n < f → digits_value 0 (decimal_from f n) ≡ n
unfolding decimal_from
digits_value-decimal zero n h = absurd (omega arith)
digits_value-decimal (suc f) n h = go (ltb n 10) refl (λ lt. digits_value-decimal f (n / 10) lt)
  where
    go :
        (b : Bool)
        → ltb n 10 ≡ b
        → (n / 10 < f → digits_value 0 (decimal_from f (n / 10)) ≡ n / 10)
        → digits_value 0
            (if b then (48 + n) ∷ [] else decimal_from f (n / 10) ++ ((48 + n % 10) ∷ []))
          ≡ n
    go true e ih =
        let lt : n < 10 = ground arith in omega (arith, digits_value-one (48 + n) (digit n lt))
    go false e ih =
        let ge : 9 < n = ground arith in
        omega (
          arith,
          digits_value-append 0 (decimal_from f (n / 10)) (48 + n % 10)
              (decimal_from-IsDigits f (n / 10)) (digit (n % 10) (omega arith)),
          ih (omega arith),
        )

-- A number begins with a digit.
pub decimal_from-ne : (f n : ℕ) → (c : ℕ) × (s : List ℕ) × (decimal_from (suc f) n ≡ c ∷ s)
unfolding decimal_from
decimal_from-ne f n = go (ltb n 10) (decimal_from f (n / 10))
  where
    go :
        (b : Bool) (t : List ℕ)
        → (c : ℕ) × (s : List ℕ) × ((if b then (48 + n) ∷ [] else t ++ ((48 + n % 10) ∷ []))
            ≡ c ∷ s)
    go true t = (48 + n, [], refl)
    go false [] = (48 + n % 10, [], refl)
    go false (c ∷ t) = (c, t ++ ((48 + n % 10) ∷ []), refl)

-- Digits alone are read as their value without a sign.
unspaced-digits :
    {A : Type 0} (bound : Bool → ℕ → Parsed A) (c : ℕ) (s : List ℕ)
    → is_digit c ≡ true
    → unspaced bound (c ∷ s) ≡ bound false (digits_value 0 (c ∷ s))
unfolding unspaced signed number
unspaced-digits bound c s h = ground arith

unspaced-decimal :
    {A : Type 0} (bound : Bool → ℕ → Parsed A) (n : ℕ) → unspaced bound (decimal n) ≡ bound false n
unspaced-decimal bound n =
    let (c, s, e) = decimal_from-ne n n in
    let first : is_digit c ≡ true = (subst IsDigits e (decimal_from-IsDigits (suc n) n)).0 in
    let value : digits_value 0 (c ∷ s) ≡ n =
      ap (digits_value 0) (sym e) ∙ digits_value-decimal (suc n) n (omega arith) in
    ap (unspaced bound) e ∙ unspaced-digits bound c s first ∙ ap (bound false) value

pub stoul-decimal : (n : ℕ) → n < 2 ^ 64 → stoul (decimal n) ≡ parsed n
unfolding stoul
stoul-decimal n h =
    let small : bounded false n ≡ parsed n = ground arith in unspaced-decimal bounded n ∙ small

pub stoi-decimal : (n : ℕ) → n < 2 ^ 31 → stoi (decimal n) ≡ parsed (pos n)
unfolding stoi
stoi-decimal n h =
    let small : bounded_int false n ≡ parsed (pos n) = ground arith in
    unspaced-decimal bounded_int n ∙ small

-- The digits before a suffix.
abbrev prepend : List ℕ → Option (List ℕ) → Option (List ℕ)
prepend s none = none
prepend s (some t) = some (s ++ t)

prepend-nil : (o : Option (List ℕ)) → o ≡ prepend [] o
prepend-nil none = refl
prepend-nil (some t) = refl

after-prepend :
    (c : ℕ) (s : List ℕ) (o : Option (List ℕ)) → after c (prepend s o) ≡ prepend (c ∷ s) o
after-prepend c s none = refl
after-prepend c s (some t) = refl

skip :
    (c x : ℕ) (b : Bool) (m n : Option (List ℕ))
    → is_digit x ≡ false
    → is_digit c ≡ true
    → (if (c == x) && b then m else n) ≡ n
skip c x b m n h k = ground arith

-- A suffix that does not begin with a digit is not found among the digits.
before_suffix-digits :
    (x : ℕ) (e s t : List ℕ)
    → is_digit x ≡ false
    → IsDigits s
    → before_suffix (x ∷ e) (s ++ t) ≡ prepend s (before_suffix (x ∷ e) t)
unfolding before_suffix same
before_suffix-digits x e [] t h k = prepend-nil (before_suffix (x ∷ e) t)
before_suffix-digits x e (c ∷ s) t h k =
    skip c x (same (s ++ t) e) (some []) (after c (before_suffix (x ∷ e) (s ++ t))) h k.0
    ∙ ap (after c) (before_suffix-digits x e s t h k.1)
    ∙ after-prepend c s (before_suffix (x ∷ e) t)

-- What the units find at the end of digits and `t`.
module _ (s t : List ℕ) (k : IsDigits s) where
  with_unit-digits :
      (x : ℕ) (e : List ℕ) (mult : ℕ) (us : List (List ℕ × ℕ)) (found : Option (List ℕ))
      → is_digit x ≡ false
      → before_suffix (x ∷ e) t ≡ found
      → with_unit (s ++ t) ((x ∷ e, mult) ∷ us) ≡ elim (prepend s found) [
        | none ↦ with_unit (s ++ t) us
        | some num ↦ scaled mult (stoul num)
      ]
  unfolding with_unit
  with_unit-digits x e mult us found h f = rw (with_unit, before_suffix-digits x e s t h k, f) refl

  -- The unit is at the end.
  hit :
      (x : ℕ) (e : List ℕ) (mult : ℕ) (us : List (List ℕ × ℕ))
      → is_digit x ≡ false
      → before_suffix (x ∷ e) t ≡ some []
      → with_unit (s ++ t) ((x ∷ e, mult) ∷ us) ≡ scaled mult (stoul s)
  hit x e mult us h f =
      with_unit-digits x e mult us (some []) h f
      ∙ ap (λ num. scaled mult (stoul num)) (append-nil s)

  -- It is not.
  miss :
      (x : ℕ) (e : List ℕ) (mult : ℕ) (us : List (List ℕ × ℕ))
      → is_digit x ≡ false
      → before_suffix (x ∷ e) t ≡ none
      → with_unit (s ++ t) ((x ∷ e, mult) ∷ us) ≡ with_unit (s ++ t) us
  miss x e mult us h f = with_unit-digits x e mult us none h f

-- The units after the first ones.
abbrev drop_units : ℕ → List (List ℕ × ℕ) → List (List ℕ × ℕ)
drop_units zero us = us
drop_units (suc n) [] = []
drop_units (suc n) (u ∷ us) = drop_units n us

no_units : (s : List ℕ) → with_unit s [] ≡ stoul s
unfolding with_unit
no_units s = refl

parse_size-digits :
    (s : List ℕ)
    → IsDigits s
    → (parse_size s ≡ stoul s)
      × (parse_size (s ++ byte) ≡ scaled 1 (stoul s))
      × (parse_size (s ++ kilo) ≡ scaled 1024 (stoul s))
      × (parse_size (s ++ kilo_upper) ≡ scaled 1024 (stoul s))
      × (parse_size (s ++ mega) ≡ scaled (1024 * 1024) (stoul s))
unfolding parse_size before_suffix same
parse_size-digits s k = (
  ap parse_size (sym (append-nil s))
      ∙ miss s [] k 107 (66 ∷ []) 1024 (drop_units 1 units) refl refl
      ∙ miss s [] k 75 (66 ∷ []) 1024 (drop_units 2 units) refl refl
      ∙ miss s [] k 77 (66 ∷ []) (1024 * 1024) (drop_units 3 units) refl refl
      ∙ miss s [] k 66 [] 1 [] refl refl
      ∙ no_units (s ++ [])
      ∙ ap stoul (append-nil s),
  miss s byte k 107 (66 ∷ []) 1024 (drop_units 1 units) refl refl
      ∙ miss s byte k 75 (66 ∷ []) 1024 (drop_units 2 units) refl refl
      ∙ miss s byte k 77 (66 ∷ []) (1024 * 1024) (drop_units 3 units) refl refl
      ∙ hit s byte k 66 [] 1 [] refl refl,
  hit s kilo k 107 (66 ∷ []) 1024 (drop_units 1 units) refl refl,
  miss s kilo_upper k 107 (66 ∷ []) 1024 (drop_units 1 units) refl refl
      ∙ hit s kilo_upper k 75 (66 ∷ []) 1024 (drop_units 2 units) refl refl,
  miss s mega k 107 (66 ∷ []) 1024 (drop_units 1 units) refl refl
      ∙ miss s mega k 75 (66 ∷ []) 1024 (drop_units 2 units) refl refl
      ∙ hit s mega k 77 (66 ∷ []) (1024 * 1024) (drop_units 3 units) refl refl,
)

-- A number that is printed in decimal digits is read back, with or without a unit; the product is
-- taken modulo `2 ^ 64`.
pub parse_size-decimal :
    (n : ℕ)
    → n < 2 ^ 64
    → (parse_size (decimal n) ≡ parsed n)
      × (parse_size (decimal n ++ byte) ≡ parsed n)
      × (parse_size (decimal n ++ kilo) ≡ parsed (n * 1024 % 2 ^ 64))
      × (parse_size (decimal n ++ kilo_upper) ≡ parsed (n * 1024 % 2 ^ 64))
      × (parse_size (decimal n ++ mega) ≡ parsed (n * (1024 * 1024) % 2 ^ 64))
unfolding scaled
parse_size-decimal n h =
    let r = parse_size-digits (decimal n) (decimal_from-IsDigits (suc n) n) in
    let e = stoul-decimal n h in
    let small : n * 1 % 2 ^ 64 ≡ n = omega arith in
    (
      r.0 ∙ e,
      r.1 ∙ ap (scaled 1) e ∙ ap parsed small,
      r.2 ∙ ap (scaled 1024) e,
      r.3 ∙ ap (scaled 1024) e,
      r.4 ∙ ap (scaled (1024 * 1024)) e,
    )
