-- ===== src/Options/Build.antt =====
-- `make_prefetcher`, `create_bpu_core`, `create_btb` and `create_branch_unit` of src/main.cc. `none`
-- is a failed assertion, an exception that leaves `main`, or a shift of `1u` by 32 or more, of which
-- the constructors make the sizes and masks of their tables.
use ysyx_np_sim.Prelude.{
  ℕ, ◌+◌, ◌-◌, ◌^◌, min, Bool, ◌||◌, ◌&&◌, assert, ◌>>◌, Option, none, some, List, [], ◌∷◌, ◌++◌,
  map, ◌>>=◌, ◌==◌, if◌then◌else◌, ltb, u64,
}
use ysyx_np_sim.Branch.Bimodal
use ysyx_np_sim.Branch.Bimodal.{Bimodal}
use ysyx_np_sim.Branch.GShare
use ysyx_np_sim.Branch.GShare.{GShare}
use ysyx_np_sim.Branch.Tournament
use ysyx_np_sim.Branch.Tournament.{Tournament}
use ysyx_np_sim.Branch.Tage
use ysyx_np_sim.Branch.Tage.{Tage}
use ysyx_np_sim.Branch.Btb
use ysyx_np_sim.Branch.Btb.{Btb}
use ysyx_np_sim.Branch.Unit
use ysyx_np_sim.Branch.Unit.{BranchUnit}
use ysyx_np_sim.Cache.Prefetch.{Kind, next_line, stride, tagged}
use ysyx_np_sim.Options.{Parsed, parsed, invalid_argument, out_of_range, ℤ, pos, negsuc, stoi}
use ysyx_np_sim.Options.Args.{Config, is_name}

-- The class of the prefetcher; `nullptr` is `none`.
pub make_prefetcher : List ℕ → Option Kind
make_prefetcher type =
    if is_name type "nextline"
    then some next_line
    else if is_name type "stride"
    then some (stride 0 0)
    else if is_name type "tagged"
    then some tagged
    else none

-- An `int` where a negative one counts as 0.
abbrev pub to_nat : ℤ → ℕ
to_nat (pos n) = n
to_nat (negsuc n) = 0

abbrev pub checked : {A : Type 0} → Parsed A → Option A
checked (parsed a) = some a
checked invalid_argument = none
checked out_of_range = none

-- The loop over the commas, with the text since the last one; a comma at the end begins no number.
unfoldable pub read_hists : List ℕ → List ℕ → Option (List ℤ)
read_hists front [] = do n ← checked (stoi front); some (n ∷ [])
read_hists front (c ∷ []) =
    let last = checked (stoi front) >>= λ n. some (n ∷ []) in
    let longer = checked (stoi (front ++ (c ∷ []))) >>= λ n. some (n ∷ []) in
    if c == b',' then last else longer
read_hists front (c ∷ d ∷ s) =
    let next = checked (stoi front) >>= λ n. read_hists [] (d ∷ s) >>= λ ns. some (n ∷ ns) in
    let same = read_hists (front ++ (c ∷ [])) (d ∷ s) in if c == b',' then next else same

unfoldable pub parse_hists : List ℕ → Option (List ℤ)
parse_hists [] = some []
parse_hists (c ∷ s) = read_hists [] (c ∷ s)

-- The predictors that `create_bpu_core` makes.
pub data BpuCore : Type 0 where
  bimodal : Bimodal → BpuCore
  gshare : GShare → BpuCore
  tournament : Tournament → BpuCore
  tage : Tage → BpuCore
  always_taken btfnt no_bpu : BpuCore

-- `bpu_type == "none" || bpu_type.empty()`
abbrev pub is_none : List ℕ → Bool
is_none type = is_name type "none" || is_name type ""

abbrev pub history : Config → ℕ
history c = if ltb 0 c.ghr_bits then c.ghr_bits else 12

-- `1u << n` is defined.
abbrev can_shift : ℕ → Bool
can_shift n = ltb n 32

pub create_tage : Config → Option BpuCore
create_tage c = do
  hlens ← parse_hists c.tage_hists
  assert (can_shift c.bpu_entries_pow2)
  assert (can_shift (to_nat c.tage_comp_pow2))
  t ← Tage.init c.bpu_entries_pow2 (to_nat c.tage_comp_pow2) (map to_nat hlens)
  some (tage t)

pub create_bpu_core : Config → Option BpuCore
unfolding create_tage
create_bpu_core c =
    let size = c.bpu_entries_pow2 in
    let with_tage = create_tage c in
    let with_bimodal = assert (can_shift size) >> some (bimodal (Bimodal.init size 1)) in
    let with_gshare =
      assert (can_shift size && can_shift (history c))
      >> some (gshare (GShare.init size (history c) 1)) in
    let with_tournament =
      assert (can_shift size && can_shift (history c))
      >> some (tournament (Tournament.init size (history c))) in
    if is_name c.bpu_type "bimodal"
    then with_bimodal
    else if is_name c.bpu_type "gshare"
    then with_gshare
    else if is_name c.bpu_type "tournament"
    then with_tournament
    else if is_name c.bpu_type "tage"
    then with_tage
    else if is_name c.bpu_type "alwaystaken"
    then some always_taken
    else if is_name c.bpu_type "btfnt"
    then some btfnt
    else if is_none c.bpu_type
    then some no_bpu
    else none

-- `AddrBits - btb_entries_pow2 - 2` is a `size_t`.
abbrev pub tag_bits : ℕ → ℕ
tag_bits entries_pow2 = min (u64 (2 ^ 64 + 30 - entries_pow2)) 16

-- The table has `1 << entries_pow2` entries, with an `int`: from 31 on there is no such vector.
unfoldable pub create_btb : Config → Option Btb
create_btb c =
    let size = c.btb_entries_pow2 in
    let compressed =
      assert (ltb size 31) >> some (Btb.init_compressed size (tag_bits size) c.sram_dff 0) in
    if size == 0 then some Btb.init_no_btb else compressed

-- Without a predictor there is neither a BTB nor a return address stack.
abbrev pub without_bpu : Config → Config
without_bpu c = if is_none c.bpu_type then record c { btb_entries_pow2 = 0; ras_depth = 0 } else c

pub create_branch_unit : Config → Option (BranchUnit BpuCore)
unfolding create_bpu_core
create_branch_unit c = do
  let c1 = without_bpu c
  bpu ← create_bpu_core c1
  btb ← create_btb c1
  some (Unit.init bpu (some btb) c1.ras_depth)
