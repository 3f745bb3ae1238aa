-- ===== src/Options/Pow2.antt =====
-- The power of two that `parse_entries_pow2` of src/main.cc accepts.
use ysyx_np_sim.Prelude.{
  ℕ, ◌-◌, ◌/◌, ◌%◌, ◌^◌, ◌<◌, ◌≤◌, zero, suc, ◌≡◌, ◌∙◌, refl, ap, ◌⊎◌, inl, inr, ◌↔◌, ◌≢◌, subst,
  Bool, true, false, List, [], ◌∷◌, arith, bit_and, bit_and_step, bit_and-mask, two_power,
  power_pos, mod_unique, pow-add,
}
use ysyx_np_sim.Options.{
  number, signed, bounded, parsed, out_of_range, stoul, unspaced, digits_value, countr_zero,
  entries_pow2, parse_entries_pow2,
}

bit_and_self : (k n : ℕ) → n ≤ k → bit_and n n ≡ n
bit_and_self k zero h = refl
bit_and_self zero (suc n) h = absurd (omega arith)
bit_and_self (suc k) (suc n) h =
    omega (arith, bit_and_step (suc n) (suc n), bit_and_self k (suc n / 2) (omega arith))

countr_zero-even : (w n : ℕ) → n % 2 ≡ 0 → countr_zero (suc w) n ≡ suc (countr_zero w (n / 2))
unfolding countr_zero
countr_zero-even w n h = ground arith

countr_zero-odd : (w n : ℕ) → n % 2 ≡ 1 → countr_zero (suc w) n ≡ 0
unfolding countr_zero
countr_zero-odd w n h = ground arith

countr_zero-power : (w k : ℕ) → k < w → countr_zero w (2 ^ k) ≡ k
countr_zero-power zero k h = absurd (omega arith)
countr_zero-power (suc w) zero h = countr_zero-odd w 1 refl
countr_zero-power (suc w) (suc k) h =
    countr_zero-even w (2 ^ suc k) (omega (arith, two_power k))
    ∙ ap suc (ap (countr_zero w) half ∙ countr_zero-power w k (omega arith))
  where
    half : 2 ^ suc k / 2 ≡ 2 ^ k
    half = omega (arith, two_power k)

lowest_bit : (w n : ℕ) → 0 < n → n < 2 ^ w → bit_and n (n - 1) ≡ 0 → n ≡ 2 ^ countr_zero w n
lowest_bit zero n p q e = absurd (omega arith)
lowest_bit (suc w) n p q e = elim (parity n) [
  | inl even ↦
      let small : bit_and (n / 2) (n / 2 - 1) ≡ 0 =
        omega (arith, e, bit_and_step n (n - 1), ap (bit_and (n / 2)) (half_pred even)) in
      let rest = lowest_bit w (n / 2) (omega arith) (omega (arith, two_power w)) small in
      omega (
        arith,
        rest,
        two_power (countr_zero w (n / 2)),
        ap (λ (k : ℕ). 2 ^ k) (countr_zero-even w n even),
      )
  | inr odd ↦ omega (
    arith,
    e,
    bit_and_step n (n - 1),
    ap (bit_and (n / 2)) (half_same odd),
    bit_and_self (n / 2) (n / 2) (omega arith),
    ap (λ (k : ℕ). 2 ^ k) (countr_zero-odd w n odd),
  )
]
  where
    parity : (n : ℕ) → (n % 2 ≡ 0) ⊎ (n % 2 ≡ 1)
    parity n = ground arith

    half_pred : n % 2 ≡ 0 → (n - 1) / 2 ≡ n / 2 - 1
    half_pred h = omega (arith, p)

    half_same : n % 2 ≡ 1 → (n - 1) / 2 ≡ n / 2
    half_same h = omega arith

bounded-lt : (b : Bool) (v n : ℕ) → bounded b v ≡ parsed n → n < 2 ^ 64
bounded-lt b v n h = ground arith

number-lt : (b : Bool) (s : List ℕ) (n : ℕ) → number bounded b s ≡ parsed n → n < 2 ^ 64
unfolding number
number-lt b [] n h = ground arith
number-lt b (c ∷ s) n h = ground (arith, bounded-lt b (digits_value 0 (c ∷ s)) n)

signed-lt : (s : List ℕ) (n : ℕ) → signed bounded s ≡ parsed n → n < 2 ^ 64
unfolding signed
signed-lt [] n h = ground arith
signed-lt (c ∷ s) n h =
    ground (arith, number-lt true s n, number-lt false s n, number-lt false (c ∷ s) n)

unspaced-lt : (s : List ℕ) (n : ℕ) → unspaced bounded s ≡ parsed n → n < 2 ^ 64
unfolding unspaced
unspaced-lt [] n h = ground arith
unspaced-lt (c ∷ s) n h = ground (arith, unspaced-lt s n, signed-lt (c ∷ s) n)

pub stoul-lt : (s : List ℕ) (n : ℕ) → stoul s ≡ parsed n → n < 2 ^ 64
unfolding stoul
stoul-lt s n h = unspaced-lt s n h

no_low_bit : (k : ℕ) → bit_and (2 ^ k) (2 ^ k - 1) ≡ 0
no_low_bit k = bit_and-mask k (2 ^ k) ∙ mod_unique (2 ^ k) 1 0 (2 ^ k) (power_pos k) (omega arith)

entries_pow2-power : (k : ℕ) → k < 64 → entries_pow2 (2 ^ k) ≡ parsed k
entries_pow2-power k h = ground (arith, power_pos k, no_low_bit k, countr_zero-power 64 k h)

entries_pow2-inverse :
    (n k : ℕ) → n < 2 ^ 64 → entries_pow2 n ≡ parsed k → (n ≡ 2 ^ k) ⊎ ((n ≡ 0) × (k ≡ 0))
entries_pow2-inverse n k h e = ground (arith, lowest_bit 64 n)

pub exponent-lt : (k : ℕ) → 2 ^ k < 2 ^ 64 → k < 64
exponent-lt k h = ground (arith, pow-add 64 (k - 64), power_pos (k - 64))

parse-number : (s : List ℕ) (n : ℕ) → stoul s ≡ parsed n → parse_entries_pow2 s ≡ entries_pow2 n
unfolding parse_entries_pow2
parse-number s n h = rw (parse_entries_pow2, h) refl

-- Where the text is a number, `parse_entries_pow2` returns `k` exactly where the number is `2 ^ k`
-- or both are 0, and throws only the error that the number is no power of two.
pub parse_entries_pow2-power :
    (s : List ℕ) (n k : ℕ)
    → stoul s ≡ parsed n
    → ((parse_entries_pow2 s ≡ parsed k) ↔ ((n ≡ 2 ^ k) ⊎ ((n ≡ 0) × (k ≡ 0))))
      × (parse_entries_pow2 s ≢ out_of_range)
parse_entries_pow2-power s n k h =
    let small = stoul-lt s n h in
    rw (parse-number s n h) (
      (
        entries_pow2-inverse n k small,
        λ e. elim e [
          | inl power ↦
              ap entries_pow2 power
              ∙ entries_pow2-power k (exponent-lt k (subst (λ m. m < 2 ^ 64) power small))
          | inr both ↦ ground arith
        ],
      ),
      ground arith,
    )
