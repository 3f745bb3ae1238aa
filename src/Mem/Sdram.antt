-- ===== src/Mem/Sdram.antt =====
-- cacheSim/RamModel.hh: `SdramModel`. A value of type `int` is a number below 2 ^ 31; `none` is a
-- sum, product or cast that leaves that range, a division by zero, or an access out of range.
pub mod State
pub mod Latency
pub mod Refresh
mod Tests
use ysyx_np_sim.Prelude.{
  ℕ, ◌+◌, ◌-◌, ◌*◌, ◌/◌, ◌^◌, Bool, true, false, not, Option, none, some, List, [], ◌∷◌, map, ◌>>=◌,
  ◌>>◌, assert, if◌then◌else◌, ltb, ◌==◌, min, max, bit_and, shr, incr, u64, get_elem?, set_at,
  replicate,
}

abbrev pub dev_mhz : ℕ
dev_mhz = 100

abbrev pub n_hosts : ℕ
n_hosts = 3

abbrev pub n_banks : ℕ
n_banks = 4

abbrev pub refresh_period : ℕ
refresh_period = 781

abbrev pub per_word : ℕ
per_word = 2

-- 1 + T_RCD
abbrev pub act_cost : ℕ
act_cost = 3

abbrev pub pre_cost : ℕ
pre_cost = 1

abbrev pub rd_base : ℕ
rd_base = 2

abbrev pub wr_base : ℕ
wr_base = 0

pub record Bank : Type 0 where
  pub is_open : Bool
  pub row : ℕ

pub record Sdram : Type 0 where
  pub freq_ratio : ℕ
  pub ctrl_free_at : List ℕ
  pub next_refresh_tick : ℕ
  pub banks : List (List Bank)
  pub row_hit : ℕ
  pub row_miss : ℕ
  pub row_conf : ℕ
  pub refresh_count : ℕ
  pub ctrl_stall : ℕ

abbrev pub closed_bank : Bank
closed_bank = record { is_open = false; row = 0 }

unfoldable pub init : ℕ → Sdram
init cpu_freq_mhz = record {
  freq_ratio = cpu_freq_mhz / dev_mhz;
  ctrl_free_at = replicate n_hosts 0;
  next_refresh_tick = refresh_period;
  banks = replicate n_hosts (replicate n_banks closed_bank);
  row_hit = 0;
  row_miss = 0;
  row_conf = 0;
  refresh_count = 0;
  ctrl_stall = 0;
}

-- The value of an `int` expression.
abbrev pub int : ℕ → Option ℕ
int x = if ltb x (2 ^ 31) then some x else none

pub bank_of : ℕ → ℕ
bank_of a = bit_and (shr a 10) 0x3

pub row_of : ℕ → ℕ
row_of a = bit_and (shr a 12) 0x1FFF

pub close : Bank → Bank
close bk = record bk { is_open = false }

-- `n_refreshes`
abbrev pub missed_refreshes : ℕ → ℕ → ℕ
missed_refreshes dev_tick next = (dev_tick - next) / refresh_period + 1

pub check_refresh : Sdram → ℕ → Option Sdram
check_refresh s dev_tick = if ltb dev_tick s.next_refresh_tick then some s else (do
  let n_refreshes = missed_refreshes dev_tick s.next_refresh_tick
  next ← int (s.next_refresh_tick + n_refreshes * refresh_period)
  some (record s {
    banks = map (map close) s.banks;
    next_refresh_tick = next;
    refresh_count = u64 (s.refresh_count + n_refreshes);
  }))

-- What an access finds in its bank.
pub data RowState : Type 0 where
  hit miss conflict : RowState

abbrev pub row_state : Bank → ℕ → RowState
row_state bank r = if not bank.is_open then miss else if not (bank.row == r) then conflict else hit

abbrev pub extra : RowState → ℕ
extra hit = 0
extra miss = act_cost
extra conflict = pre_cost + act_cost

pub count_row : Sdram → RowState → Sdram
count_row s hit = record s { row_hit = incr s.row_hit }
count_row s miss = record s { row_miss = incr s.row_miss }
count_row s conflict = record s { row_conf = incr s.row_conf }

-- The bank that the host sees at an address.
pub bank_at : Sdram → ℕ → ℕ → Option Bank
bank_at s host addr = do host_banks ← get_elem? s.banks host; get_elem? host_banks (bank_of addr)

pub open_row : Sdram → ℕ → ℕ → Option Sdram
open_row s host addr = do
  host_banks ← get_elem? s.banks host
  written ← set_at host_banks (bank_of addr) (record { is_open = true; row = row_of addr })
  banks ← set_at s.banks host written
  some (record s { banks = banks })

pub host_of : ℕ → ℕ
host_of host_id = min host_id (n_hosts - 1)

-- `PER_WORD * bst_len + base + extra`
abbrev pub burst_cycles : ℕ → Bool → RowState → ℕ
burst_cycles bst_len is_write row =
    per_word * bst_len + (if is_write then wr_base else rd_base) + extra row

-- The access proper, after the refresh check.
pub serve : Sdram → ℕ → ℕ → Bool → ℕ → ℕ → Option (ℕ × Sdram)
unfolding count_row open_row
serve s addr bst_len is_write dev_tick host = do
  free_at ← get_elem? s.ctrl_free_at host
  let start_dev = max dev_tick free_at
  bank ← bank_at s host addr
  let row = row_state bank (row_of addr)
  let counted =
      count_row (record s { ctrl_stall = u64 (s.ctrl_stall + (start_dev - dev_tick)) }) row
  dev_cyc ← int (burst_cycles bst_len is_write row)
  free ← int (start_dev + dev_cyc)
  ctrl_free_at ← set_at s.ctrl_free_at host free
  opened ← open_row (record counted { ctrl_free_at = ctrl_free_at }) host addr
  lat ← int ((free - dev_tick) * s.freq_ratio)
  some (lat, opened)

pub access : Sdram → ℕ → ℕ → Bool → ℕ → ℕ → Option (ℕ × Sdram)
access s addr bst_len is_write cur_tick host_id = do
  assert (ltb 0 s.freq_ratio)
  dev_tick ← int (cur_tick / s.freq_ratio)
  refreshed ← check_refresh s dev_tick
  serve refreshed addr bst_len is_write dev_tick (host_of host_id)

pub reset_stats : Sdram → Sdram
reset_stats s = record s {
  row_hit = 0;
  row_miss = 0;
  row_conf = 0;
  refresh_count = 0;
  ctrl_stall = 0;
  ctrl_free_at = map (λ _. 0) s.ctrl_free_at;
  next_refresh_tick = refresh_period;
  banks = map (map (λ _. closed_bank)) s.banks;
}
