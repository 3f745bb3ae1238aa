-- ===== src/Options.antt =====
-- The option parsers of src/main.cc: a text is the list of its character codes.
-- `std::stoul` follows the standard: blanks, one sign, decimal digits up to the first other
-- character; a text without a digit is an invalid argument, a number above 64 bits is out of range.
pub mod Pow2
pub mod Args
pub mod Build
pub mod Decimal
pub mod Hists
pub mod Tests
use ysyx_np_sim.Prelude.{
  ℕ, ◌+◌, ◌-◌, ◌*◌, ◌/◌, ◌%◌, ◌^◌, zero, suc, Bool, true, false, ◌&&◌, ◌||◌, Option, none, some,
  List, [], ◌∷◌, ltb, leb, ◌==◌, if◌then◌else◌, bit_and,
}

-- What a parser returns or throws.
pub data Parsed (A : Type 0) : Type 0 where
  parsed : A → Parsed A
  invalid_argument : Parsed A
  out_of_range : Parsed A

-- An `int`; `negsuc n` is -(n + 1).
pub data ℤ : Type 0 where
  pos : ℕ → ℤ
  negsuc : ℕ → ℤ

abbrev pub is_space : ℕ → Bool
is_space c = (c == 32) || (leb 9 c && leb c 13)

abbrev pub is_digit : ℕ → Bool
is_digit c = leb 48 c && leb c 57

-- The value of the digits at the front, after those of value `v`.
unfoldable pub digits_value : ℕ → List ℕ → ℕ
digits_value v [] = v
digits_value v (c ∷ s) =
    let rest = digits_value (10 * v + (c - 48)) s in if is_digit c then rest else v

-- A minus sign negates modulo `2 ^ 64`.
abbrev pub bounded : Bool → ℕ → Parsed ℕ
bounded negative v =
    if ltb v (2 ^ 64) then parsed ((if negative then 2 ^ 64 - v else v) % 2 ^ 64) else out_of_range

abbrev pub bounded_int : Bool → ℕ → Parsed ℤ
bounded_int true zero = parsed (pos 0)
bounded_int true (suc v) = if ltb v (2 ^ 31) then parsed (negsuc v) else out_of_range
bounded_int false v = if ltb v (2 ^ 31) then parsed (pos v) else out_of_range

-- The number of a text, its sign and digits read as the argument says.
module _ {A : Type 0} (bound : Bool → ℕ → Parsed A) where
  unfoldable pub number : Bool → List ℕ → Parsed A
  number negative [] = invalid_argument
  number negative (c ∷ s) =
      if is_digit c then bound negative (digits_value 0 (c ∷ s)) else invalid_argument

  unfoldable pub signed : List ℕ → Parsed A
  signed [] = invalid_argument
  signed (c ∷ s) =
      if c == 45 then number true s else if c == 43 then number false s else number false (c ∷ s)

  unfoldable pub unspaced : List ℕ → Parsed A
  unspaced [] = invalid_argument
  unspaced (c ∷ s) = let rest = unspaced s in if is_space c then rest else signed (c ∷ s)

unfoldable pub stoul : List ℕ → Parsed ℕ
stoul s = unspaced bounded s

unfoldable pub stoi : List ℕ → Parsed ℤ
stoi s = unspaced bounded_int s

unfoldable pub same : List ℕ → List ℕ → Bool
same [] [] = true
same [] (d ∷ t) = false
same (c ∷ s) [] = false
same (c ∷ s) (d ∷ t) = (c == d) && same s t

abbrev pub after : ℕ → Option (List ℕ) → Option (List ℕ)
after c none = none
after c (some s) = some (c ∷ s)

-- `ends_with` and the `substr` before the end.
unfoldable pub before_suffix : List ℕ → List ℕ → Option (List ℕ)
before_suffix e [] = if same [] e then some [] else none
before_suffix e (c ∷ s) =
    let rest = before_suffix e s in if same (c ∷ s) e then some [] else after c rest

unfoldable pub scaled : ℕ → Parsed ℕ → Parsed ℕ
scaled mult (parsed n) = parsed (n * mult % 2 ^ 64)
scaled mult invalid_argument = invalid_argument
scaled mult out_of_range = out_of_range

-- "kB", "KB", "MB" and "B"
abbrev pub kilo : List ℕ
kilo = 107 ∷ 66 ∷ []

abbrev pub kilo_upper : List ℕ
kilo_upper = 75 ∷ 66 ∷ []

abbrev pub mega : List ℕ
mega = 77 ∷ 66 ∷ []

abbrev pub byte : List ℕ
byte = 66 ∷ []

-- The first suffix that the text ends with sets the multiplier.
unfoldable pub with_unit : List ℕ → List (List ℕ × ℕ) → Parsed ℕ
with_unit s [] = stoul s
with_unit s (u ∷ us) =
    let rest = with_unit s us in
    elim (before_suffix (u.0) s) [ none ↦ rest | some num ↦ scaled (u.1) (stoul num) ]

abbrev pub units : List (List ℕ × ℕ)
units = (kilo, 1024) ∷ (kilo_upper, 1024) ∷ (mega, 1024 * 1024) ∷ (byte, 1) ∷ []

unfoldable pub parse_size : List ℕ → Parsed ℕ
parse_size s = with_unit s units

-- `std::countr_zero`, on a word of as many bits as the first argument.
unfoldable pub countr_zero : ℕ → ℕ → ℕ
countr_zero zero n = 0
countr_zero (suc w) n = let rest = countr_zero w (n / 2) in if n % 2 == 0 then suc rest else 0

abbrev pub entries_pow2 : ℕ → Parsed ℕ
entries_pow2 n =
    if n == 0
    then parsed 0
    else if bit_and n (n - 1) == 0
    then parsed (countr_zero 64 n)
    else invalid_argument

unfoldable pub parse_entries_pow2 : List ℕ → Parsed ℕ
parse_entries_pow2 s = elim (stoul s) [
  | parsed n ↦ entries_pow2 n
  | invalid_argument ↦ invalid_argument
  | out_of_range ↦ out_of_range
]
