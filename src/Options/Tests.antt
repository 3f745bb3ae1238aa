-- ===== src/Options/Tests.antt =====
-- Runs of the option parsers.
use ysyx_np_sim.Prelude.{ℕ, List, [], ◌∷◌, ◌≡◌, refl, ◌^◌, ◌↔◌, ◌⊎◌, ◌≢◌}
use ysyx_np_sim.Options.{
  parsed, invalid_argument, out_of_range, digits_value, number, signed, same, before_suffix, scaled,
  with_unit, countr_zero, stoul, unspaced, parse_size, parse_entries_pow2,
}
use ysyx_np_sim.Prelude.{◌*◌, ◌%◌, ◌++◌, some, arith}
use ysyx_np_sim.Options.{byte, kilo, kilo_upper, mega, pos}
use ysyx_np_sim.Options.Decimal.{decimal, decimal_from, parse_size-decimal}
use ysyx_np_sim.Options.Build.{parse_hists}
use ysyx_np_sim.Options.Hists.{joined, parse_hists-joined}
use ysyx_np_sim.Options.Args.{parse_args, codes}
use ysyx_np_sim.Options.Args.Bounds.{ResultEnsures, IsBounded, RunsOn, parse_args-IsBounded}
use ysyx_np_sim.Options.Pow2.{parse_entries_pow2-power}

-- " 128", "16kB", "12" and "-1B"
abbrev text_128 : List ℕ
text_128 = 32 ∷ 49 ∷ 50 ∷ 56 ∷ []

abbrev text_16k : List ℕ
text_16k = 49 ∷ 54 ∷ 107 ∷ 66 ∷ []

abbrev size : ℕ
size = 128

abbrev sixteen : ℕ
sixteen = 16

abbrev seven : ℕ
seven = 7

stoul_128 : stoul text_128 ≡ parsed 128
unfolding stoul unspaced signed number digits_value
stoul_128 = refl

parse_size_16k : parse_size text_16k ≡ parsed 16384
unfolding parse_size with_unit before_suffix same scaled stoul unspaced signed number digits_value
parse_size_16k = refl

parse_size_negative : parse_size (45 ∷ 49 ∷ 66 ∷ []) ≡ parsed 18446744073709551615
unfolding parse_size with_unit before_suffix same scaled stoul unspaced signed number digits_value
parse_size_negative = refl

parse_entries_pow2_12 : parse_entries_pow2 (49 ∷ 50 ∷ []) ≡ invalid_argument
unfolding parse_entries_pow2 stoul unspaced signed number digits_value countr_zero
parse_entries_pow2_12 = refl

parse_entries_pow2-power_example :
    ((parse_entries_pow2 text_128 ≡ parsed seven)
      ↔ ((size ≡ 2 ^ seven) ⊎ ((size ≡ 0) × (seven ≡ 0))))
    × (parse_entries_pow2 text_128 ≢ out_of_range)
parse_entries_pow2-power_example = parse_entries_pow2-power text_128 size seven stoul_128

parse_size-decimal_example :
    (parse_size (decimal sixteen) ≡ parsed 16)
    × (parse_size (decimal sixteen ++ byte) ≡ parsed 16)
    × (parse_size (decimal sixteen ++ kilo) ≡ parsed (sixteen * 1024 % 2 ^ 64))
    × (parse_size (decimal sixteen ++ kilo_upper) ≡ parsed (sixteen * 1024 % 2 ^ 64))
    × (parse_size (decimal sixteen ++ mega) ≡ parsed (sixteen * (1024 * 1024) % 2 ^ 64))
parse_size-decimal_example = parse_size-decimal sixteen (omega arith)

-- The text of 16 is what the command line has before "kB".
decimal_16 : decimal sixteen ++ kilo ≡ text_16k
unfolding decimal_from
decimal_16 = refl

parse_hists-joined_example :
    parse_hists (joined 2 (8 ∷ 32 ∷ [])) ≡ some (pos 2 ∷ pos 8 ∷ pos 32 ∷ [])
parse_hists-joined_example = parse_hists-joined 2 (8 ∷ 32 ∷ []) (omega arith) (omega arith)

-- --bpu-size=128 --l1d-repl=lru with a trace
parse_args-IsBounded_example :
    ResultEnsures
      (λ c. IsBounded c × RunsOn (some text_16k) c)
      (parse_args ((b'e', text_128) ∷ (216, codes "lru") ∷ []) (some text_16k))
parse_args-IsBounded_example =
    parse_args-IsBounded ((b'e', text_128) ∷ (216, codes "lru") ∷ []) (some text_16k)
