-- ===== src/Options/Args/Bounds.antt =====
-- Bounds on what `parse_args` of src/main.cc sets.
use ysyx_np_sim.Prelude.{
  ℕ, ◌^◌, ◌<◌, ◌≤◌, ◌≡◌, ◌≢◌, refl, subst, inl, inr, Bool, true, false, Option, none, some, List,
  [], ◌∷◌, arith, if◌then◌else◌,
}
use ysyx_np_sim.Cache.Policy.{other_name}
use ysyx_np_sim.Options.{
  Parsed, parsed, invalid_argument, out_of_range, same, stoul, stoi, parse_size, parse_entries_pow2,
}
use ysyx_np_sim.Options.Pow2.{stoul-lt, exponent-lt, parse_entries_pow2-power}
use ysyx_np_sim.Options.Args.{
  Config, Flag, Result, bpu_size, btb_size, ras_size, go_on, exit, threw, defaults, apply, set_to,
  set_or_exit, case_of, cases, is_policy, policy_name, parse_opts, parse_args, positional,
}

-- Bounds that the parser gives: the two table exponents are those of a 64-bit size, the replacement
-- policies have names that `make_repl_policy` knows, and the numbers fit their variables. Sizes and
-- associativities of caches may be 0, and the exponents may be too large for a shift of 32 bits.
pub record IsBounded (c : Config) : Type 0 where
  pub bpu : c.bpu_entries_pow2 < 64
  pub btb : c.btb_entries_pow2 < 64
  pub icache : policy_name c.l1i_repl ≢ other_name
  pub dcache : policy_name c.l1d_repl ≢ other_name
  pub print : c.print_mode ≤ 2
  pub insts : c.max_insts < 2 ^ 64
  pub ticks : c.max_ticks < 2 ^ 64
  pub sram : c.sram_lat < 2 ^ 32

-- The trace is the one that was given, and without one it is a dry run.
abbrev pub RunsOn : Option (List ℕ) → Config → Type 0
RunsOn (some file) c = c.trace_file ≡ file
RunsOn none c = c.dry_run ≡ true

-- What holds of the settings if the parser returns 0; any other status is 1.
abbrev pub ResultEnsures : (Config → Type 0) → Result → Type 0
ResultEnsures P (go_on c) = P c
ResultEnsures P (exit status) = status ≡ 1
ResultEnsures P threw = Unit

is_policy-known : (s : List ℕ) → is_policy s ≡ true → policy_name s ≢ other_name
is_policy-known s h = ground arith

parse-invalid : (s : List ℕ) → stoul s ≡ invalid_argument → parse_entries_pow2 s ≡ invalid_argument
unfolding parse_entries_pow2
parse-invalid s e = rw (parse_entries_pow2, e) refl

parse-out_of_range : (s : List ℕ) → stoul s ≡ out_of_range → parse_entries_pow2 s ≡ out_of_range
unfolding parse_entries_pow2
parse-out_of_range s e = rw (parse_entries_pow2, e) refl

entries-lt : (s : List ℕ) (k : ℕ) → parse_entries_pow2 s ≡ parsed k → k < 64
entries-lt s k h = go (stoul s) refl
  where
    go : (r : Parsed ℕ) → stoul s ≡ r → k < 64
    go (parsed n) e = elim ((parse_entries_pow2-power s n k e).0.0 h) [
      | inl power ↦ exponent-lt k (subst (λ m. m < 2 ^ 64) power (stoul-lt s n e))
      | inr both ↦ omega arith
    ]
    go invalid_argument e = cc (parse-invalid s e)
    go out_of_range e = cc (parse-out_of_range s e)

set_to-IsBounded :
    {A : Type 0} (r : Parsed A) (f : A → Config)
    → ((n : A) → r ≡ parsed n → IsBounded (f n))
    → ResultEnsures IsBounded (set_to r f)
set_to-IsBounded (parsed n) f k = k n refl
set_to-IsBounded invalid_argument f k = tt
set_to-IsBounded out_of_range f k = tt

set_or_exit-IsBounded :
    (r : Parsed ℕ) (f : ℕ → Config)
    → ((n : ℕ) → r ≡ parsed n → IsBounded (f n))
    → ResultEnsures IsBounded (set_or_exit r f)
set_or_exit-IsBounded (parsed n) f k = k n refl
set_or_exit-IsBounded invalid_argument f k = refl
set_or_exit-IsBounded out_of_range f k = tt

set_policy-IsBounded :
    (b : Bool) (c : Config)
    → (b ≡ true → IsBounded c)
    → ResultEnsures IsBounded (if b then go_on c else exit 1)
set_policy-IsBounded true c k = k refl
set_policy-IsBounded false c k = refl

replaced_l1d :
    (c : Config) (arg : List ℕ)
    → IsBounded c
    → policy_name arg ≢ other_name
    → IsBounded (record c { l1d_repl = arg })
replaced_l1d c arg v known = record {
  bpu = v.bpu;
  btb = v.btb;
  print = v.print;
  insts = v.insts;
  ticks = v.ticks;
  sram = v.sram;
  dcache = known;
  icache = v.icache;
}

replaced_l1i :
    (c : Config) (arg : List ℕ)
    → IsBounded c
    → policy_name arg ≢ other_name
    → IsBounded (record c { l1i_repl = arg })
replaced_l1i c arg v known = record {
  bpu = v.bpu;
  btb = v.btb;
  print = v.print;
  insts = v.insts;
  ticks = v.ticks;
  sram = v.sram;
  icache = known;
  dcache = v.dcache;
}

defaults-IsBounded : IsBounded defaults
unfolding same
defaults-IsBounded = record {
  bpu = omega arith;
  btb = omega arith;
  icache = cc;
  dcache = cc;
  print = omega arith;
  insts = omega arith;
  ticks = omega arith;
  sram = omega arith;
}

apply-IsBounded :
    (flag : Flag) (arg : List ℕ) (c : Config)
    → IsBounded c
    → ResultEnsures IsBounded (apply flag arg c)
unfolding apply
apply-IsBounded Flag.l1i_size arg c v = set_to-IsBounded (parse_size arg) _ (λ n e. ground arith)
apply-IsBounded Flag.l1i_blksize arg c v = set_to-IsBounded (parse_size arg) _ (λ n e. ground arith)
apply-IsBounded Flag.l1i_assoc arg c v = set_to-IsBounded (parse_size arg) _ (λ n e. ground arith)
apply-IsBounded Flag.l1d_size arg c v = set_to-IsBounded (parse_size arg) _ (λ n e. ground arith)
apply-IsBounded Flag.l1d_blksize arg c v = set_to-IsBounded (parse_size arg) _ (λ n e. ground arith)
apply-IsBounded Flag.l1d_assoc arg c v = set_to-IsBounded (parse_size arg) _ (λ n e. ground arith)
apply-IsBounded ras_size arg c v = set_to-IsBounded (stoul arg) _ (λ n e. ground arith)
apply-IsBounded Flag.stbuf_entries arg c v = set_to-IsBounded (stoul arg) _ (λ n e. ground arith)
apply-IsBounded Flag.sram_lat arg c v = set_to-IsBounded (stoul arg) _ (λ n e. ground arith)
apply-IsBounded Flag.mmio_lat arg c v = set_to-IsBounded (stoul arg) _ (λ n e. ground arith)
apply-IsBounded Flag.freq_mhz arg c v = set_to-IsBounded (stoi arg) _ (λ n e. ground arith)
apply-IsBounded Flag.ghr_bits arg c v = set_to-IsBounded (stoul arg) _ (λ n e. ground arith)
apply-IsBounded Flag.tage_comp_pow2 arg c v = set_to-IsBounded (stoi arg) _ (λ n e. ground arith)
apply-IsBounded Flag.max_insts arg c v =
    set_to-IsBounded (stoul arg) _ (λ n e. ground (arith, stoul-lt arg n e))
apply-IsBounded Flag.max_ticks arg c v =
    set_to-IsBounded (stoul arg) _ (λ n e. ground (arith, stoul-lt arg n e))
apply-IsBounded bpu_size arg c v =
    set_or_exit-IsBounded (parse_entries_pow2 arg) _ (λ n e. ground (arith, entries-lt arg n e))
apply-IsBounded btb_size arg c v =
    set_or_exit-IsBounded (parse_entries_pow2 arg) _ (λ n e. ground (arith, entries-lt arg n e))
apply-IsBounded Flag.l1i_repl arg c v =
    set_policy-IsBounded (is_policy arg) _ (λ e. replaced_l1i c arg v (is_policy-known arg e))
apply-IsBounded Flag.l1d_repl arg c v =
    set_policy-IsBounded (is_policy arg) _ (λ e. replaced_l1d c arg v (is_policy-known arg e))
apply-IsBounded _ arg c v = ground arith

dry-IsBounded :
    (b : Bool) (c : Config)
    → IsBounded c
    → c.dry_run ≡ b
    → ResultEnsures (λ d. IsBounded d × (d.dry_run ≡ true)) (if b then go_on c else exit 1)
dry-IsBounded true c v e = (v, e)
dry-IsBounded false c v e = refl

positional-IsBounded :
    (file : Option (List ℕ)) (c : Config)
    → IsBounded c
    → ResultEnsures (λ d. IsBounded d × RunsOn file d) (positional file c)
positional-IsBounded (some f) c v = (
  record {
    bpu = v.bpu;
    btb = v.btb;
    icache = v.icache;
    dcache = v.dcache;
    print = v.print;
    insts = v.insts;
    ticks = v.ticks;
    sram = v.sram;
  },
  refl,
)
positional-IsBounded none c v = dry-IsBounded c.dry_run c v refl

parse_opts-IsBounded :
    (opts : List (ℕ × List ℕ)) (file : Option (List ℕ)) (c : Config)
    → IsBounded c
    → ResultEnsures (λ d. IsBounded d × RunsOn file d) (parse_opts opts file c)
unfolding parse_opts
parse_opts-IsBounded [] file c v = positional-IsBounded file c v
parse_opts-IsBounded ((opt, arg) ∷ rest) file c v =
    next (apply (case_of cases opt) arg c) (apply-IsBounded (case_of cases opt) arg c v)
      (λ c' v'. parse_opts-IsBounded rest file c' v')
  where
    next :
        (r : Result)
        → ResultEnsures IsBounded r
        → ((c' : Config)
            → IsBounded c'
            → ResultEnsures (λ d. IsBounded d × RunsOn file d) (parse_opts rest file c'))
        → ResultEnsures
            (λ d. IsBounded d × RunsOn file d)
            (elim r [
              | go_on c' ↦ parse_opts rest file c'
              | exit status ↦ exit status
              | threw ↦ threw
            ])
    next (go_on c') h k = k c' h
    next (exit status) h k = h
    next threw h k = tt

-- Whatever the command line is: where `parse_args` returns 0, the exponents of the predictor's and
-- the BTB's size are below 64, the names of the replacement policies are known ones, the print mode
-- is at most 2, `max_insts` and `max_ticks` are below `2 ^ 64` and `sram_lat` below `2 ^ 32`, and the
-- trace is the one that was given, or it is a dry run; where it returns anything else, that is 1.
pub parse_args-IsBounded :
    (opts : List (ℕ × List ℕ)) (file : Option (List ℕ))
    → ResultEnsures (λ c. IsBounded c × RunsOn file c) (parse_args opts file)
unfolding parse_args
parse_args-IsBounded opts file = parse_opts-IsBounded opts file defaults defaults-IsBounded
