-- ===== src/Options/Args.antt =====
-- `parse_args` of src/main.cc. `getopt_long` is not modelled: what it returns is a list of option
-- codes with their arguments, and the first argument that is no option.
pub mod Bounds
use Prim.Native.Char.{code}
use Prim.Native.String.{String}
use ysyx_np_sim.Prelude.{
  ℕ, ◌^◌, ◌-◌, Bool, true, false, not, ◌||◌, Option, none, some, List, [], ◌∷◌, ◌++◌, if◌then◌else◌,
  ◌==◌, u32,
}
use ysyx_np_sim.Cache.Policy.{PolicyName, plru_name, lru_name, srrip_name, rr_name, other_name}
use ysyx_np_sim.Options.{
  Parsed, parsed, invalid_argument, out_of_range, ℤ, pos, same, stoul, stoi, parse_size,
  parse_entries_pow2,
}

-- The character codes of a name.
abbrev pub codes : String → List ℕ
codes String.[] = []
codes (String.◌∷◌ c s) = code c ∷ codes s

abbrev pub is_name : List ℕ → String → Bool
is_name s name = same s (codes name)

-- The static variables that the options set. `debug_flags` holds the arguments of `set_flags`.
pub record Config : Type 0 where
  pub sram_lat : ℕ
  pub trace_file : List ℕ
  pub l1i_size : ℕ
  pub l1i_blksize : ℕ
  pub l1i_assoc : ℕ
  pub l1d_size : ℕ
  pub l1d_blksize : ℕ
  pub l1d_assoc : ℕ
  pub max_insts : ℕ
  pub max_ticks : ℕ
  pub out_dir : List ℕ
  pub dry_run : Bool
  pub bpu_type : List ℕ
  pub bpu_entries_pow2 : ℕ
  pub btb_entries_pow2 : ℕ
  pub ras_depth : ℕ
  pub ghr_bits : ℕ
  pub tage_comp_pow2 : ℤ
  pub tage_hists : List ℕ
  pub print_mode : ℕ
  pub stbuf_entries : ℕ
  pub mmio_lat : ℕ
  pub freq_mhz : ℤ
  pub l1i_pref_type : List ℕ
  pub l1d_pref_type : List ℕ
  pub l1i_repl : List ℕ
  pub l1d_repl : List ℕ
  pub sram_dff : Bool
  pub l1i_cwf : Bool
  pub debug_flags : List (List ℕ)

abbrev pub defaults : Config
defaults = record {
  sram_lat = 1;
  trace_file = [];
  l1i_size = 1024;
  l1i_blksize = 16;
  l1i_assoc = 1;
  l1d_size = 0;
  l1d_blksize = 16;
  l1d_assoc = 1;
  max_insts = 2 ^ 64 - 1;
  max_ticks = 2 ^ 64 - 1;
  out_dir = [];
  dry_run = false;
  bpu_type = [];
  bpu_entries_pow2 = 4;
  btb_entries_pow2 = 4;
  ras_depth = 0;
  ghr_bits = 0;
  tage_comp_pow2 = pos 7;
  tage_hists = codes "2,4,8,16,32,64";
  print_mode = 2;
  stbuf_entries = 0;
  mmio_lat = 3;
  freq_mhz = pos 1000;
  l1i_pref_type = codes "none";
  l1d_pref_type = codes "none";
  l1i_repl = codes "plru";
  l1d_repl = codes "plru";
  sram_dff = true;
  l1i_cwf = false;
  debug_flags = [];
}

-- The cases of the switch.
pub data Flag : Type 0 where
  l1i_size l1i_blksize l1i_assoc l1d_size l1d_blksize l1d_assoc max_insts max_ticks : Flag
  debug_flags outdir dry_run bpu_type bpu_size btb_size ras_size stbuf_entries : Flag
  l1i_pref l1i_repl l1d_pref l1d_repl print_brief print_none sram_lat sram_dff sram_lib : Flag
  mmio_lat freq_mhz l1i_cwf ghr_bits tage_hists tage_comp_pow2 : Flag
  usage : Flag

-- The value of each option in `long_options`, by which the switch goes.
abbrev pub cases : List (ℕ × Flag)
cases =
    (b's', Flag.l1i_size)
    ∷ (b'b', Flag.l1i_blksize)
    ∷ (b'a', Flag.l1i_assoc)
    ∷ (b'S', Flag.l1d_size)
    ∷ (b'B', Flag.l1d_blksize)
    ∷ (b'A', Flag.l1d_assoc)
    ∷ (b'n', Flag.max_insts)
    ∷ (b'N', Flag.max_ticks)
    ∷ (b'd', Flag.debug_flags)
    ∷ (b'O', outdir)
    ∷ (b'D', Flag.dry_run)
    ∷ (b'T', Flag.bpu_type)
    ∷ (b'e', bpu_size)
    ∷ (b't', btb_size)
    ∷ (b'R', ras_size)
    ∷ (b'Z', Flag.stbuf_entries)
    ∷ (b'P', l1i_pref)
    ∷ (215, Flag.l1i_repl)
    ∷ (b'p', l1d_pref)
    ∷ (216, Flag.l1d_repl)
    ∷ (201, print_brief)
    ∷ (200, print_none)
    ∷ (203, Flag.sram_lat)
    ∷ (204, Flag.sram_dff)
    ∷ (205, sram_lib)
    ∷ (206, Flag.mmio_lat)
    ∷ (207, Flag.freq_mhz)
    ∷ (211, Flag.l1i_cwf)
    ∷ (212, Flag.ghr_bits)
    ∷ (213, Flag.tage_hists)
    ∷ (214, Flag.tage_comp_pow2)
    ∷ []

unfoldable pub case_of : List (ℕ × Flag) → ℕ → Flag
case_of [] opt = usage
case_of ((label, flag) ∷ rest) opt = if opt == label then flag else case_of rest opt

-- The parser goes on, it returns a status, or an exception leaves it.
pub data Result : Type 0 where
  go_on : Config → Result
  exit : ℕ → Result
  threw : Result

abbrev pub set_to : {A : Type 0} → Parsed A → (A → Config) → Result
set_to (parsed n) f = go_on (f n)
set_to invalid_argument f = threw
set_to out_of_range f = threw

-- `catch (const std::invalid_argument& e)`
abbrev pub set_or_exit : Parsed ℕ → (ℕ → Config) → Result
set_or_exit (parsed n) f = go_on (f n)
set_or_exit invalid_argument f = exit 1
set_or_exit out_of_range f = threw

abbrev pub policy_name : List ℕ → PolicyName
policy_name s =
    if is_name s "plru"
    then plru_name
    else if is_name s "lru"
    then lru_name
    else if is_name s "srrip"
    then srrip_name
    else if is_name s "rr"
    then rr_name
    else other_name

abbrev pub is_policy : List ℕ → Bool
is_policy s = is_name s "plru" || is_name s "lru" || is_name s "srrip" || is_name s "rr"

unfoldable pub apply : Flag → List ℕ → Config → Result
apply Flag.l1i_size arg c = set_to (parse_size arg) (λ n. record c { l1i_size = n })
apply Flag.l1i_blksize arg c = set_to (parse_size arg) (λ n. record c { l1i_blksize = n })
apply Flag.l1i_assoc arg c = set_to (parse_size arg) (λ n. record c { l1i_assoc = n })
apply Flag.l1d_size arg c = set_to (parse_size arg) (λ n. record c { l1d_size = n })
apply Flag.l1d_blksize arg c = set_to (parse_size arg) (λ n. record c { l1d_blksize = n })
apply Flag.l1d_assoc arg c = set_to (parse_size arg) (λ n. record c { l1d_assoc = n })
apply Flag.max_insts arg c = set_to (stoul arg) (λ n. record c { max_insts = n })
apply Flag.max_ticks arg c = set_to (stoul arg) (λ n. record c { max_ticks = n })
apply Flag.debug_flags arg c = go_on (record c { debug_flags = c.debug_flags ++ (arg ∷ []) })
apply outdir arg c = go_on (record c { out_dir = arg })
apply Flag.dry_run arg c = go_on (record c { dry_run = true })
apply Flag.bpu_type arg c = go_on (record c { bpu_type = arg })
apply bpu_size arg c = set_or_exit (parse_entries_pow2 arg) (λ n. record c { bpu_entries_pow2 = n })
apply btb_size arg c = set_or_exit (parse_entries_pow2 arg) (λ n. record c { btb_entries_pow2 = n })
apply ras_size arg c = set_to (stoul arg) (λ n. record c { ras_depth = n })
apply Flag.stbuf_entries arg c = set_to (stoul arg) (λ n. record c { stbuf_entries = n })
apply l1i_pref arg c = go_on (record c { l1i_pref_type = arg })
apply Flag.l1i_repl arg c = if is_policy arg then go_on (record c { l1i_repl = arg }) else exit 1
apply l1d_pref arg c = go_on (record c { l1d_pref_type = arg })
apply Flag.l1d_repl arg c = if is_policy arg then go_on (record c { l1d_repl = arg }) else exit 1
apply print_brief arg c = go_on (record c { print_mode = 1 })
apply print_none arg c = go_on (record c { print_mode = 0 })
apply Flag.sram_lat arg c = set_to (stoul arg) (λ n. record c { sram_lat = u32 n })
apply Flag.sram_dff arg c = go_on (record c { sram_dff = true })
apply sram_lib arg c = go_on (record c { sram_dff = false })
apply Flag.mmio_lat arg c = set_to (stoul arg) (λ n. record c { mmio_lat = n })
apply Flag.freq_mhz arg c = set_to (stoi arg) (λ n. record c { freq_mhz = n })
apply Flag.l1i_cwf arg c = go_on (record c { l1i_cwf = true })
apply Flag.ghr_bits arg c = set_to (stoul arg) (λ n. record c { ghr_bits = n })
apply Flag.tage_hists arg c = go_on (record c { tage_hists = arg })
apply Flag.tage_comp_pow2 arg c = set_to (stoi arg) (λ n. record c { tage_comp_pow2 = n })
apply usage arg c = exit 1

-- The first argument that is no option is the trace; without one only a dry run goes on.
abbrev pub positional : Option (List ℕ) → Config → Result
positional (some file) c = go_on (record c { trace_file = file })
positional none c = if c.dry_run then go_on c else exit 1

unfoldable pub parse_opts : List (ℕ × List ℕ) → Option (List ℕ) → Config → Result
parse_opts [] file c = positional file c
parse_opts ((opt, arg) ∷ rest) file c = elim (apply (case_of cases opt) arg c) [
  | go_on c' ↦ parse_opts rest file c'
  | exit status ↦ exit status
  | threw ↦ threw
]

-- `go_on` is the status 0.
unfoldable pub parse_args : List (ℕ × List ℕ) → Option (List ℕ) → Result
parse_args opts file = parse_opts opts file defaults
