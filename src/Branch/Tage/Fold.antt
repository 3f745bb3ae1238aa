-- ===== src/Branch/Tage/Fold.antt =====
-- branchSim/Tage.cc: `fold_ghr`, with the index and the tag that come of it.
use ysyx_np_sim.Branch.Tage.{Comp, tag_bits}
use ysyx_np_sim.Prelude.{
  ℕ, zero, suc, ◌*◌, ◌-◌, bit_and, bit_xor, Option, none, some, ◌>>=◌, if◌then◌else◌, ltb, leb,
  ◌==◌, ones, shr, u32,
}

-- The loop over a history of 64 bits, with fuel; `result` is what it has so far.
unfoldable pub fold_loop : ℕ → ℕ → ℕ → ℕ → Option ℕ
fold_loop zero ghr out_bits result = if ghr == 0 then some result else none
fold_loop (suc fuel) ghr out_bits result =
    let rest =
      fold_loop fuel (shr ghr out_bits) out_bits (bit_xor result (bit_and ghr (ones out_bits))) in
    if ghr == 0 then some result else rest

-- `hist_len < 63` after lengths from 64 on became 63.
abbrev pub hist_mask : ℕ → ℕ
hist_mask hist_len =
    let len = if leb 64 hist_len then 63 else hist_len in if ltb len 63 then ones len else ones 64

-- `out_bits` is at most 32.
unfoldable pub fold_ghr : ℕ → ℕ → ℕ → Option ℕ
unfolding fold_loop
fold_ghr ghr hist_len out_bits = do
  result ← fold_loop 64 (bit_and ghr (hist_mask hist_len)) out_bits 0
  some (bit_and result (ones out_bits))

unfoldable pub comp_idx : Comp → ℕ → ℕ → Option ℕ
unfolding fold_ghr
comp_idx c pc ghr = do
  let pc_part = bit_and (shr pc 2) c.mask
  ghr_part ← fold_ghr ghr c.hist_len c.idx_bits
  some (bit_and (bit_xor pc_part ghr_part) c.mask)

unfoldable pub comp_tag : Comp → ℕ → ℕ → Option ℕ
comp_tag c pc ghr = do
  h1 ← fold_ghr ghr c.hist_len tag_bits
  h2 ← fold_ghr (shr ghr 1) (if ltb 1 c.hist_len then c.hist_len - 1 else 1) (tag_bits - 1)
  let pc_low = bit_and (shr pc 2) (ones tag_bits)
  some (bit_and (bit_xor (bit_xor pc_low h1) (u32 (h2 * 2))) (ones tag_bits))
