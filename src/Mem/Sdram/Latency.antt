-- ===== src/Mem/Sdram/Latency.antt =====
-- The latency of an SDRAM access, and the row that it leaves open.
use ysyx_np_sim.Prelude.{
  ap, subst, not, false, ◌==◌, if◌then◌else◌, ℕ, ◌+◌, ◌-◌, ◌*◌, ◌/◌, ◌^◌, ◌<◌, ◌≡◌, refl, ◌∙◌, max,
  Bool, true, some, arith, lt→ltb, u64, Returns, Returns-bind, length-set, get_elem?, set,
  get_elem?-set_self, get_elem?-set_ne, set_at_of_lt, ◌≢◌,
}
use ysyx_np_sim.Mem.Sdram.{
  Sdram, Bank, RowState, hit, miss, conflict, bank_of, row_of, row_state, burst_cycles, count_row,
  bank_at, open_row, host_of, serve, access,
}
use ysyx_np_sim.Mem.Sdram.Refresh.{before_refresh}
use ysyx_np_sim.Mem.Sdram.State.{
  IsValid, host_of-lt, Opened, opens, counted-IsValid, RowCounted, RowCounted-count_row, Counts,
  count_row-Counts,
}

-- What an access of `addr` by `host` finds.
pub record Finds (s : Sdram) (host addr free_at : ℕ) (bank : Bank) : Type 0 where
  pub free : get_elem? s.ctrl_free_at host ≡ some free_at
  pub row : bank_at s host addr ≡ some bank

-- Device cycles for the state of the row: open, in a closed bank, or behind another open row.
abbrev pub row_cycles : Bank → ℕ → ℕ
row_cycles bank row = if not bank.is_open then 3 else if bank.row == row then 0 else 4

-- The device tick at which the burst ends: the wait, two cycles a word and two for a read, and the
-- cycles for the row.
abbrev pub ends_at : ℕ → ℕ → Bank → ℕ → Bool → ℕ → ℕ
ends_at dev_tick free_at bank bst_len is_write addr =
    max dev_tick free_at
    + (2 * bst_len + (if is_write then 0 else 2) + row_cycles bank (row_of addr))

-- The same as the code has it.
abbrev code_end : ℕ → ℕ → Bank → ℕ → Bool → ℕ → ℕ
code_end dev_tick free_at bank bst_len is_write addr =
    max dev_tick free_at + burst_cycles bst_len is_write (row_state bank (row_of addr))

code_end_lem :
    (dev_tick free_at : ℕ) (bank : Bank) (bst_len : ℕ) (is_write : Bool) (addr : ℕ)
    → code_end dev_tick free_at bank bst_len is_write addr
      ≡ ends_at dev_tick free_at bank bst_len is_write addr
code_end_lem dev_tick free_at bank bst_len is_write addr =
    ap (λ (n : ℕ). max dev_tick free_at + n)
      (cycles bank.is_open (bank.row == row_of addr) is_write)
  where
    cycles :
        (active same w : Bool)
        → burst_cycles bst_len w (if not active then miss else if not same then conflict else hit)
          ≡ 2 * bst_len + (if w then 0 else 2) + (if not active then 3 else if same then 0 else 4)
    cycles true true true = omega arith
    cycles true true false = omega arith
    cycles true false true = omega arith
    cycles true false false = omega arith
    cycles false same true = omega arith
    cycles false same false = omega arith

bank_at-same : (s t : Sdram) (h a : ℕ) → t.banks ≡ s.banks → bank_at t h a ≡ bank_at s h a
unfolding bank_at
bank_at-same s t h a e = rw e refl

-- An access of `addr` by `host` at a device tick, with its controller free at `free_at` and its bank
-- as given, that ends at the device tick `end`: the latency, and every field of the state after it.
pub record Served (s : Sdram) (host addr dev_tick free_at : ℕ) (bank : Bank) (end : ℕ) (lat : ℕ)
    (s' : Sdram) : Type 0 where
  pub latency : lat ≡ (end - dev_tick) * s.freq_ratio
  pub busy : get_elem? s'.ctrl_free_at host ≡ some end
  pub other_frees : (h : ℕ) → host ≢ h → get_elem? s'.ctrl_free_at h ≡ get_elem? s.ctrl_free_at h
  pub stall : s'.ctrl_stall ≡ u64 (s.ctrl_stall + (max dev_tick free_at - dev_tick))
  pub opened : bank_at s' host addr ≡ some (record { is_open = true; row = row_of addr })
  pub other_hosts : (h a : ℕ) → host ≢ h → bank_at s' h a ≡ bank_at s h a
  pub other_banks : (a : ℕ) → bank_of addr ≢ bank_of a → bank_at s' host a ≡ bank_at s host a
  pub counts : RowCounted bank (row_of addr) s s'
  pub ratio : s'.freq_ratio ≡ s.freq_ratio
  pub refresh : s'.next_refresh_tick ≡ s.next_refresh_tick
  pub refreshes : s'.refresh_count ≡ s.refresh_count
  pub valid : IsValid s'

serve_lem :
    (s : Sdram) (addr bst_len : ℕ) (is_write : Bool) (dev_tick host free_at : ℕ) (bank : Bank)
    → IsValid s
    → host < 3
    → Finds s host addr free_at bank
    → code_end dev_tick free_at bank bst_len is_write addr < 2 ^ 31
    → (code_end dev_tick free_at bank bst_len is_write addr - dev_tick) * s.freq_ratio < 2 ^ 31
    → Returns (serve s addr bst_len is_write dev_tick host) (λ x.
      Served s host addr dev_tick free_at bank
        (code_end dev_tick free_at bank bst_len is_write addr)
        x.0
        x.1)
unfolding serve
serve_lem s addr bst_len is_write dev_tick host free_at bank v h f fits lat_fits =
    rw
      (
        f.free,
        f.row,
        lt→ltb cycles (2 ^ 31) (omega arith),
        lt→ltb end (2 ^ 31) fits,
        set_at_of_lt s.ctrl_free_at host end (rw v.frees h),
      )
      (Returns-bind (Opened before host addr) _ (open_row before host addr) _
        (opens before host addr before-IsValid h)
        λ s' o. rw (lt→ltb ((end - dev_tick) * s.freq_ratio) (2 ^ 31) lat_fits) (served s' o))
  where
    row : RowState
    row = row_state bank (row_of addr)

    cycles : ℕ
    cycles = burst_cycles bst_len is_write row

    end : ℕ
    end = max dev_tick free_at + cycles

    stalled : Sdram
    stalled = record s { ctrl_stall = u64 (s.ctrl_stall + (max dev_tick free_at - dev_tick)) }

    before : Sdram
    before = record (count_row stalled row) { ctrl_free_at = set s.ctrl_free_at host end }

    before-IsValid : IsValid before
    before-IsValid = counted-IsValid s _ _ row v (length-set s.ctrl_free_at host end ∙ v.frees)

    c : Counts stalled (count_row stalled row)
    c = count_row-Counts stalled row

    n : RowCounted bank (row_of addr) stalled (count_row stalled row)
    n = RowCounted-count_row bank (row_of addr) stalled

    same_bank : (h a : ℕ) → bank_at before h a ≡ bank_at s h a
    same_bank h a = bank_at-same s before h a c.banks

    served :
        (s' : Sdram)
        → Opened before host addr s'
        → Served s host addr dev_tick free_at bank end ((end - dev_tick) * s.freq_ratio) s'
    served s' o = record {
      latency = refl;
      busy = rw o.frees (get_elem?-set_self s.ctrl_free_at host end (rw v.frees h));
      opened = o.row;
      other_frees = λ g ne. rw o.frees (get_elem?-set_ne s.ctrl_free_at host g end ne);
      stall = o.stall ∙ c.stall;
      other_hosts = λ g a ne. o.other_hosts g a ne ∙ same_bank g a;
      other_banks = λ a ne. o.other_banks a ne ∙ same_bank host a;
      counts = record {
        hits = o.hits ∙ n.hits;
        misses = o.misses ∙ n.misses;
        conflicts = o.conflicts ∙ n.conflicts;
      };
      ratio = o.ratio ∙ c.ratio;
      refresh = o.refresh ∙ c.refresh;
      refreshes = o.refreshes ∙ c.refreshes;
      valid = o.valid;
    }

-- The same with any way to write the end.
serve_until :
    (s : Sdram) (addr bst_len : ℕ) (is_write : Bool) (dev_tick host free_at : ℕ) (bank : Bank)
    (stop : ℕ)
    → IsValid s
    → host < 3
    → Finds s host addr free_at bank
    → code_end dev_tick free_at bank bst_len is_write addr ≡ stop
    → stop < 2 ^ 31
    → (stop - dev_tick) * s.freq_ratio < 2 ^ 31
    → Returns
        (serve s addr bst_len is_write dev_tick host)
        (λ x. Served s host addr dev_tick free_at bank stop x.0 x.1)
serve_until s addr bst_len is_write dev_tick host free_at bank stop v h f e =
    subst
      (λ (t : ℕ).
        t < 2 ^ 31
        → (t - dev_tick) * s.freq_ratio < 2 ^ 31
        → Returns (serve s addr bst_len is_write dev_tick host)
            (λ x. Served s host addr dev_tick free_at bank t x.0 x.1))
      e (serve_lem s addr bst_len is_write dev_tick host free_at bank v h f)

-- The device tick of a CPU tick.
abbrev pub dev_tick_of : Sdram → ℕ → ℕ
dev_tick_of s cur_tick = cur_tick / s.freq_ratio

-- With no refresh due and all times within an `int`, an access fails nowhere. Its latency is the
-- wait until the host's controller is free, 2 device cycles for each word, 2 more for a read, and
-- 0, 3 or 4 as the row is open, its bank is closed or another row is open, all times the frequency
-- ratio. After it the controller of this host is busy until the end of the burst and those of the
-- others are as before; the wait is added to `ctrl_stall`; the bank has the row open, and the other
-- banks of this host and all banks of the others are as before; `row_hit` has gone up by one where
-- the row was open, `row_miss` where the bank was closed and `row_conf` where another row was open,
-- and the other two are as before; the ratio, the next refresh and the count of refreshes are too.
pub access_latency :
    (s : Sdram) (addr bst_len : ℕ) (is_write : Bool) (cur_tick host_id free_at : ℕ) (bank : Bank)
    → IsValid s
    → Finds s (host_of host_id) addr free_at bank
    → dev_tick_of s cur_tick < s.next_refresh_tick
    → dev_tick_of s cur_tick < 2 ^ 31
    → ends_at (dev_tick_of s cur_tick) free_at bank bst_len is_write addr < 2 ^ 31
    → (ends_at (dev_tick_of s cur_tick) free_at bank bst_len is_write addr - dev_tick_of s cur_tick)
        * s.freq_ratio
      < 2 ^ 31
    → Returns (access s addr bst_len is_write cur_tick host_id) (λ x.
      Served s
        (host_of host_id)
        addr
        (dev_tick_of s cur_tick)
        free_at
        bank
        (ends_at (dev_tick_of s cur_tick) free_at bank bst_len is_write addr)
        x.0
        x.1)
unfolding access
access_latency s addr bst_len is_write cur_tick host_id free_at bank v f early small fits lat_fits =
    rw
      (
        lt→ltb 0 s.freq_ratio v.ratio_pos,
        lt→ltb (cur_tick / s.freq_ratio) (2 ^ 31) small,
        before_refresh s (cur_tick / s.freq_ratio) early,
      )
      (serve_until s addr bst_len is_write (cur_tick / s.freq_ratio) (host_of host_id) free_at bank
        (ends_at (cur_tick / s.freq_ratio) free_at bank bst_len is_write addr) v
        (host_of-lt host_id) f
        (code_end_lem (cur_tick / s.freq_ratio) free_at bank bst_len is_write addr) fits lat_fits)
