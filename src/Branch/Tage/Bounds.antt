-- ===== src/Branch/Tage/Bounds.antt =====
-- The loop of `fold_ghr` ends, and the indices that come of it are in range.
use ysyx_np_sim.Prelude.{
  ℕ, zero, suc, ◌-◌, ◌/◌, ◌^◌, ◌≤◌, ◌<◌, ◌≡◌, refl, sym, subst, Bool, true, false, arith, some,
  if◌then◌else◌, ltb, leb, ◌==◌, length, ones, shr, bit_and, bit_xor, bit_and-mask, bit_xor-lt,
  power_pos, Returns, Returns-bind, Returns-if,
}
use native.Mathlib.Nat.{
  mod-lt, div-le_self, div-div-eq-div-mul, pow-succ', two-pow-succ, pow-le-pow_right,
}
use ysyx_np_sim.Branch.Tage.{Comp, tag_bits}
use ysyx_np_sim.Branch.Tage.Fold.{fold_loop, hist_mask, fold_ghr, comp_idx, comp_tag}

-- What a mask keeps is below the power of two.
pub masked-lt : (k a : ℕ) → bit_and a (ones k) < 2 ^ k
masked-lt k a = rw (bit_and-mask k a) (mod-lt a (power_pos k))

shr-lt : (fuel bits ghr : ℕ) → 0 < bits → ghr < 2 ^ suc fuel → shr ghr bits < 2 ^ fuel
shr-lt fuel zero ghr h lt = absurd (omega arith)
shr-lt fuel (suc b) ghr h lt =
    rw (pow-succ' 2 b, sym (div-div-eq-div-mul ghr 2 (2 ^ b)))
      (omega (arith, div-le_self (ghr / 2) (2 ^ b), two-pow-succ fuel))

fold_loop-Returns :
    (fuel bits ghr result : ℕ)
    → 0 < bits
    → ghr < 2 ^ fuel
    → result < 2 ^ bits
    → Returns (fold_loop fuel ghr bits result) (λ r. r < 2 ^ bits)
unfolding fold_loop
fold_loop-Returns zero bits ghr result h lt r = let e : (ghr == 0) ≡ true = ground arith in rw e r
fold_loop-Returns (suc fuel) bits ghr result h lt r =
    Returns-if (λ r. r < 2 ^ bits) (ghr == 0) (some result) _ r
      (fold_loop-Returns fuel bits (shr ghr bits) _ h (shr-lt fuel bits ghr h lt)
        (bit_xor-lt bits result _ r (masked-lt bits ghr)))

hist_mask-lt : (len ghr : ℕ) → bit_and ghr (hist_mask len) < 2 ^ 64
hist_mask-lt len ghr = go (ltb (if leb 64 len then 63 else len) 63) refl
  where
    short : (n : ℕ) → ltb n 63 ≡ true → bit_and ghr (ones n) < 2 ^ 64
    short n e =
        let le : n ≤ 64 = ground arith in
        let p : 2 ^ n ≤ 2 ^ 64 = pow-le-pow_right (omega arith) le in omega (arith, masked-lt n ghr)

    go :
        (b : Bool)
        → ltb (if leb 64 len then 63 else len) 63 ≡ b
        → bit_and ghr (if b then ones (if leb 64 len then 63 else len) else ones 64) < 2 ^ 64
    go true e = short _ e
    go false e = masked-lt 64 ghr

-- Folding a history onto at least one bit ends, in a number of that many bits.
pub fold_ghr-ends :
    (ghr hist_len bits : ℕ) → 0 < bits → Returns (fold_ghr ghr hist_len bits) (λ r. r < 2 ^ bits)
unfolding fold_ghr
fold_ghr-ends ghr hist_len bits h =
    Returns-bind (λ r. r < 2 ^ bits) (λ r. r < 2 ^ bits)
      (fold_loop 64 (bit_and ghr (hist_mask hist_len)) bits 0) (λ r. some (bit_and r (ones bits)))
      (fold_loop-Returns 64 bits _ 0 h (hist_mask-lt hist_len ghr) (power_pos bits))
      (λ r k. masked-lt bits r)

-- The table of a component has as many entries as its index has values.
pub record CompValid (c : Comp) : Type 0 where
  pub bits_pos : 0 < c.idx_bits
  pub mask_is : c.mask ≡ ones c.idx_bits
  pub table_size : length c.table ≡ 2 ^ c.idx_bits

pub comp_idx-Returns :
    (c : Comp) (pc ghr : ℕ) → CompValid c → Returns (comp_idx c pc ghr) (λ i. i < length c.table)
unfolding comp_idx
comp_idx-Returns c pc ghr v =
    Returns-bind (λ r. r < 2 ^ c.idx_bits) (λ i. i < length c.table)
      (fold_ghr ghr c.hist_len c.idx_bits)
      (λ r. some (bit_and (bit_xor (bit_and (shr pc 2) c.mask) r) c.mask))
      (fold_ghr-ends ghr c.hist_len c.idx_bits v.bits_pos)
      (λ r k. in_table (bit_xor (bit_and (shr pc 2) c.mask) r))
  where
    in_table : (a : ℕ) → bit_and a c.mask < length c.table
    in_table a =
        rw (v.table_size)
          (subst (λ m. bit_and a m < 2 ^ c.idx_bits) (sym v.mask_is) (masked-lt c.idx_bits a))

pub comp_tag-Returns :
    (c : Comp) (pc ghr : ℕ) → Returns (comp_tag c pc ghr) (λ tag. tag < 2 ^ tag_bits)
unfolding comp_tag
comp_tag-Returns c pc ghr =
    Returns-bind (λ r. r < 2 ^ tag_bits) (λ r. r < 2 ^ tag_bits) (fold_ghr ghr c.hist_len tag_bits)
      _ (fold_ghr-ends ghr c.hist_len tag_bits (omega arith))
      (λ h1 k.
        Returns-bind (λ r. r < 2 ^ (tag_bits - 1)) (λ r. r < 2 ^ tag_bits)
          (fold_ghr (shr ghr 1) (if ltb 1 c.hist_len then c.hist_len - 1 else 1) (tag_bits - 1)) _
          (fold_ghr-ends (shr ghr 1) _ (tag_bits - 1) (omega arith))
          (λ h2 k'. masked-lt tag_bits _))
