-- ===== src/Mem/Sdram/State.antt =====
-- Valid states of the SDRAM model, and the parts of an access that write to it.
use ysyx_np_sim.Prelude.{
  Bool, false, not, ◌&&◌, ◌==◌, if◌then◌else◌, incr, ℕ, ◌≤◌, ◌<◌, ◌≡◌, refl, ◌∙◌, true, some, List,
  arith, bit_and-mask, shr, Returns, All, All-set, All-get_elem?, length, length-set, get_elem?,
  set, get_elem?_of_lt, get_elem?-set_self, get_elem?-set_ne, ◌≢◌, set_at_of_lt,
}
use ysyx_np_sim.Mem.Sdram.{
  Sdram, Bank, RowState, hit, miss, conflict, init, bank_of, row_of, count_row, row_state, bank_at,
  open_row, host_of,
}

pub record IsValid (s : Sdram) : Type 0 where
  pub ratio_pos : 0 < s.freq_ratio
  pub frees : length s.ctrl_free_at ≡ 3
  pub hosts : length s.banks ≡ 3
  pub widths : All (λ hb. length hb ≡ 4) s.banks

pub init-IsValid : (mhz : ℕ) → 100 ≤ mhz → IsValid (init mhz)
unfolding init
init-IsValid mhz h = omega arith

pub bank_of-lt : (addr : ℕ) → bank_of addr < 4
unfolding bank_of
bank_of-lt addr = rw (bit_and-mask 2 (shr addr 10)) (omega arith)

pub host_of-lt : (host_id : ℕ) → host_of host_id < 3
unfolding host_of
host_of-lt host_id = omega arith

pub record Opened (s : Sdram) (host addr : ℕ) (s' : Sdram) : Type 0 where
  pub valid : IsValid s'
  pub row : bank_at s' host addr ≡ some (record { is_open = true; row = row_of addr })
  pub frees : s'.ctrl_free_at ≡ s.ctrl_free_at
  pub ratio : s'.freq_ratio ≡ s.freq_ratio
  pub refresh : s'.next_refresh_tick ≡ s.next_refresh_tick
  pub hits : s'.row_hit ≡ s.row_hit
  pub misses : s'.row_miss ≡ s.row_miss
  pub conflicts : s'.row_conf ≡ s.row_conf
  pub refreshes : s'.refresh_count ≡ s.refresh_count
  pub stall : s'.ctrl_stall ≡ s.ctrl_stall
  pub other_hosts : (h a : ℕ) → host ≢ h → bank_at s' h a ≡ bank_at s h a
  pub other_banks : (a : ℕ) → bank_of addr ≢ bank_of a → bank_at s' host a ≡ bank_at s host a

pub opens :
    (s : Sdram) (host addr : ℕ)
    → IsValid s
    → host < 3
    → Returns (open_row s host addr) (Opened s host addr)
unfolding open_row bank_at
opens s host addr v h = go (get_elem?_of_lt s.banks host (rw v.hosts h))
  where
    fresh : Bank
    fresh = record { is_open = true; row = row_of addr }

    go :
        (hb : List Bank) × (get_elem? s.banks host ≡ some hb)
        → Returns (open_row s host addr) (Opened s host addr)
    go (hb, e) =
        rw
          (
            e,
            set_at_of_lt hb (bank_of addr) fresh wide,
            set_at_of_lt s.banks host written (rw v.hosts h),
          )
          (record {
            valid = record {
              ratio_pos = v.ratio_pos;
              frees = v.frees;
              hosts = length-set s.banks host written ∙ v.hosts;
              widths =
                  All-set (λ hb. length hb ≡ 4) s.banks host written v.widths
                    (length-set hb (bank_of addr) fresh ∙ four);
            };
            row =
                rw
                  (
                    get_elem?-set_self s.banks host written (rw v.hosts h),
                    get_elem?-set_self hb (bank_of addr) fresh wide,
                  )
                  refl;
            frees = refl;
            ratio = refl;
            refresh = refl;
            hits = refl;
            misses = refl;
            conflicts = refl;
            refreshes = refl;
            stall = refl;
            other_hosts = λ h a ne. rw (get_elem?-set_ne s.banks host h written ne) refl;
            other_banks = λ a ne.
                rw
                  (
                    e,
                    get_elem?-set_self s.banks host written (rw v.hosts h),
                    get_elem?-set_ne hb (bank_of addr) (bank_of a) fresh ne,
                  )
                  refl;
          })
      where
        four : length hb ≡ 4
        four = All-get_elem? (λ hb. length hb ≡ 4) s.banks host v.widths e

        wide : bank_of addr < length hb
        wide = rw four (bank_of-lt addr)

        written : List Bank
        written = set hb (bank_of addr) fresh

pub counted-IsValid :
    (s : Sdram) (n : ℕ) (xs : List ℕ) (r : RowState)
    → IsValid s
    → length xs ≡ 3
    → IsValid (record (count_row (record s { ctrl_stall = n }) r) { ctrl_free_at = xs })
unfolding count_row
counted-IsValid s n xs hit v h = record {
  ratio_pos = v.ratio_pos;
  frees = h;
  hosts = v.hosts;
  widths = v.widths;
}
counted-IsValid s n xs miss v h = record {
  ratio_pos = v.ratio_pos;
  frees = h;
  hosts = v.hosts;
  widths = v.widths;
}
counted-IsValid s n xs conflict v h = record {
  ratio_pos = v.ratio_pos;
  frees = h;
  hosts = v.hosts;
  widths = v.widths;
}

-- `count_row` changes the three row counters only.
pub record Counts (s c : Sdram) : Type 0 where
  pub ratio : c.freq_ratio ≡ s.freq_ratio
  pub refresh : c.next_refresh_tick ≡ s.next_refresh_tick
  pub refreshes : c.refresh_count ≡ s.refresh_count
  pub stall : c.ctrl_stall ≡ s.ctrl_stall
  pub banks : c.banks ≡ s.banks

pub count_row-Counts : (s : Sdram) (r : RowState) → Counts s (count_row s r)
unfolding count_row
count_row-Counts s hit = record {
  ratio = refl;
  refresh = refl;
  refreshes = refl;
  stall = refl;
  banks = refl;
}
count_row-Counts s miss = record {
  ratio = refl;
  refresh = refl;
  refreshes = refl;
  stall = refl;
  banks = refl;
}
count_row-Counts s conflict = record {
  ratio = refl;
  refresh = refl;
  refreshes = refl;
  stall = refl;
  banks = refl;
}

-- The row counters: a hit where the row is open, a miss where the bank is closed, else a conflict.
pub record RowCounted (bank : Bank) (row : ℕ) (s s' : Sdram) : Type 0 where
  pub hits : s'.row_hit ≡ (if bank.is_open && bank.row == row then incr s.row_hit else s.row_hit)
  pub misses : s'.row_miss ≡ (if bank.is_open then s.row_miss else incr s.row_miss)
  pub conflicts :
      s'.row_conf ≡ (if bank.is_open && not (bank.row == row) then incr s.row_conf else s.row_conf)

pub RowCounted-count_row :
    (bank : Bank) (row : ℕ) (s : Sdram) → RowCounted bank row s (count_row s (row_state bank row))
unfolding count_row
RowCounted-count_row bank row s =
    let (a, b, c) = counted bank.is_open (bank.row == row) in
    record { hits = a; misses = b; conflicts = c }
  where
    counted :
        (active same : Bool)
        → (let c = count_row s (if not active then miss else if not same then conflict else hit) in
            (c.row_hit ≡ (if active && same then incr s.row_hit else s.row_hit))
            × (c.row_miss ≡ (if active then s.row_miss else incr s.row_miss))
            × (c.row_conf ≡ (if active && not same then incr s.row_conf else s.row_conf)))
    counted true true = (refl, refl, refl)
    counted true false = (refl, refl, refl)
    counted false true = (refl, refl, refl)
    counted false false = (refl, refl, refl)
