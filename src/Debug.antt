-- ===== src/Debug.antt =====
-- defines/debug.hh: the flags that choose what is printed, and `set_flags`, which turns on those that
-- a text names. A text is the list of its character codes; the flags of `--debug-flags` are the state.
mod Flags
mod Tests
use ysyx_np_sim.Prelude.{
  ℕ, ◌-◌, ◌^◌, zero, suc, Bool, true, false, Option, none, some, List, [], ◌∷◌, ◌==◌, if◌then◌else◌,
  bit_or,
}
use ysyx_np_sim.Options.{same}

pub data Flag : Type 0 where
  flag_none : Flag
  main : Flag
  cache : Flag
  branch_pred : Flag
  pipeline : Flag
  if_queue : Flag
  ld_queue : Flag
  st_queue : Flag
  ls_unit : Flag
  mem : Flag
  clock : Flag
  event : Flag
  all : Flag

abbrev pub value : Flag → ℕ
value flag_none = 0
value main = 1
value cache = 2
value branch_pred = 4
value pipeline = 8
value if_queue = 16
value ld_queue = 32
value st_queue = 64
value ls_unit = bit_or 32 64
value mem = 128
value clock = 2 ^ 62
value event = 2 ^ 63
value all = 2 ^ 64 - 1

-- The names that `set_flags` compares with, in its order.
abbrev cache_text : List ℕ
cache_text = b'C' ∷ b'a' ∷ b'c' ∷ b'h' ∷ b'e' ∷ []

abbrev branch_pred_text : List ℕ
branch_pred_text = b'B' ∷ b'r' ∷ b'a' ∷ b'n' ∷ b'c' ∷ b'h' ∷ b'P' ∷ b'r' ∷ b'e' ∷ b'd' ∷ []

abbrev pipeline_text : List ℕ
pipeline_text = b'P' ∷ b'i' ∷ b'p' ∷ b'e' ∷ b'l' ∷ b'i' ∷ b'n' ∷ b'e' ∷ []

abbrev if_queue_text : List ℕ
if_queue_text = b'I' ∷ b'F' ∷ b'Q' ∷ b'u' ∷ b'e' ∷ b'u' ∷ b'e' ∷ []

abbrev ld_queue_text : List ℕ
ld_queue_text = b'L' ∷ b'D' ∷ b'Q' ∷ b'u' ∷ b'e' ∷ b'u' ∷ b'e' ∷ []

abbrev st_queue_text : List ℕ
st_queue_text = b'S' ∷ b'T' ∷ b'Q' ∷ b'u' ∷ b'e' ∷ b'u' ∷ b'e' ∷ []

abbrev ls_unit_text : List ℕ
ls_unit_text = b'L' ∷ b'S' ∷ b'U' ∷ b'n' ∷ b'i' ∷ b't' ∷ []

abbrev mem_text : List ℕ
mem_text = b'M' ∷ b'e' ∷ b'm' ∷ []

abbrev main_text : List ℕ
main_text = b'M' ∷ b'a' ∷ b'i' ∷ b'n' ∷ []

abbrev clock_text : List ℕ
clock_text = b'C' ∷ b'l' ∷ b'o' ∷ b'c' ∷ b'k' ∷ []

abbrev event_text : List ℕ
event_text = b'E' ∷ b'v' ∷ b'e' ∷ b'n' ∷ b't' ∷ []

abbrev all_text : List ℕ
all_text = b'A' ∷ b'l' ∷ b'l' ∷ []

abbrev flag_named : List ℕ → Option Flag
flag_named s =
    if same s cache_text
    then some cache
    else if same s branch_pred_text
    then some branch_pred
    else if same s pipeline_text
    then some pipeline
    else if same s if_queue_text
    then some if_queue
    else if same s ld_queue_text
    then some ld_queue
    else if same s st_queue_text
    then some st_queue
    else if same s ls_unit_text
    then some ls_unit
    else if same s mem_text
    then some mem
    else if same s main_text
    then some main
    else if same s clock_text
    then some clock
    else if same s event_text
    then some event
    else if same s all_text
    then some all
    else none

push : ℕ → List (List ℕ) → List (List ℕ)
push c [] = (c ∷ []) ∷ []
push c (s ∷ ss) = (c ∷ s) ∷ ss

-- What `std::getline` reads up to each comma; nothing follows a comma at the end.
segments : List ℕ → List (List ℕ)
unfolding push
segments [] = []
segments (c ∷ s) = let rest = segments s in if c == b',' then [] ∷ rest else push c rest

set_flag : ℕ → Option Flag → ℕ
set_flag enabled none = enabled
set_flag enabled (some f) = bit_or enabled (value f)

set_segments : ℕ → List (List ℕ) → ℕ
unfolding set_flag
set_segments enabled [] = enabled
set_segments enabled (s ∷ ss) = set_segments (set_flag enabled (flag_named s)) ss

-- The flags that are on after those in the first argument.
pub set_flags : ℕ → List ℕ → ℕ
unfolding segments set_segments
set_flags enabled flag_str = set_segments enabled (segments flag_str)
