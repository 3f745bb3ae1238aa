-- ===== src/Prelude/Bits.antt =====
-- `&`, `|` and `^` on unsigned words, as arithmetic at every width.
use Prim.Native.Nat.{
  ℕ, zero, suc, ◌+◌, ◌-◌, ◌*◌, ◌/◌, ◌%◌, ◌^◌, ◌≤◌, ◌<◌, min, max, differ, digits, bit_and, bit_or,
  bit_xor, bit_and-bitwise, bit_or-bitwise, bit_xor-bitwise,
}
use mathlib.Core.Path.{◌≡◌, refl, ap}
use native.Mathlib.Nat.{
  mul-add-mod_self_left, mod-eq_of_lt, mod-lt, div-add-mod, pow-suc, one-le-pow,
}
use mathlib.Core.Bool.{Bool, true, ◌&&◌}
use native.Mathlib.Omega.{arith}

-- `(1u << k) - 1u`
abbrev pub ones : ℕ → ℕ
ones k = 2 ^ k - 1

module _ (z : ℕ → ℕ) (f : ℕ → ℕ → ℕ) where
  enough : (n m x w : ℕ) → x ≤ n → x ≤ m → digits z f n x w ≡ digits z f m x w
  enough zero zero x w hn hm = refl
  enough (suc n) (suc m) zero w hn hm = refl
  enough zero (suc m) zero w hn hm = refl
  enough (suc n) zero zero w hn hm = refl
  enough zero m (suc x) w hn hm = absurd (omega arith)
  enough (suc n) zero (suc x) w hn hm = absurd (omega arith)
  enough (suc n) (suc m) (suc x) w hn hm =
      omega (arith, enough n m (suc x / 2) (w / 2) (omega arith) (omega arith))

  lowest_digit :
      (x w : ℕ)
      → digits z f (suc x) (suc x) w
        ≡ digits z f (suc x / 2) (suc x / 2) (w / 2) * 2 + f (suc x % 2) (w % 2)
  lowest_digit x w =
      omega (arith, enough x (suc x / 2) (suc x / 2) (w / 2) (omega arith) (omega arith))

pub bit_and_step : (x w : ℕ) → bit_and x w ≡ bit_and (x / 2) (w / 2) * 2 + min (x % 2) (w % 2)
bit_and_step zero w = simp bit_and-bitwise (omega arith)
bit_and_step (suc x) w = simp bit_and-bitwise (lowest_digit (λ v. 0) min x w)

pub bit_or_step : (x w : ℕ) → bit_or x w ≡ bit_or (x / 2) (w / 2) * 2 + max (x % 2) (w % 2)
bit_or_step zero w = simp bit_or-bitwise (omega arith)
bit_or_step (suc x) w = simp bit_or-bitwise (lowest_digit (λ v. v) max x w)

pub bit_xor_step : (x w : ℕ) → bit_xor x w ≡ bit_xor (x / 2) (w / 2) * 2 + differ (x % 2) (w % 2)
bit_xor_step zero w = simp bit_xor-bitwise (zero_digit w)
  where
    zero_digit : (w : ℕ) → w ≡ w / 2 * 2 + w % 2
    zero_digit w = omega arith
bit_xor_step (suc x) w = simp bit_xor-bitwise (lowest_digit (λ v. v) differ x w)

differ-le-one : (a b : ℕ) → differ (a % 2) (b % 2) ≤ 1
differ-le-one a b = go (a % 2) (b % 2) (omega arith) (omega arith)
  where
    go : (x y : ℕ) → x < 2 → y < 2 → differ x y ≤ 1
    go zero y p q = omega arith
    go (suc zero) zero p q = omega arith
    go (suc zero) (suc zero) p q = omega arith
    go (suc zero) (suc (suc y)) p q = absurd (omega arith)
    go (suc (suc x)) y p q = absurd (omega arith)

pub two_power : (k : ℕ) → 2 ^ suc k ≡ 2 * 2 ^ k
two_power k = omega (arith, pow-suc 2 k)

bit_and-zero : (k a : ℕ) → a ≤ k → bit_and a 0 ≡ 0
bit_and-zero k zero h = refl
bit_and-zero zero (suc a) h = absurd (omega arith)
bit_and-zero (suc k) (suc a) h =
    omega (arith, bit_and_step (suc a) 0, bit_and-zero k (suc a / 2) (omega arith))

pub mod_unique : (m q r a : ℕ) → r < m → a ≡ m * q + r → a % m ≡ r
mod_unique m q r a h e = rw (e, mul-add-mod_self_left m q r) (mod-eq_of_lt h)

halve : (p a : ℕ) → 0 < p → a % (2 * p) ≡ a / 2 % p * 2 + a % 2
halve p a h =
    mod_unique (2 * p) (a / 2 / p) (a / 2 % p * 2 + a % 2) a (omega (arith, mod-lt (a / 2) h))
      (omega (arith, div-add-mod (a / 2) p))

-- A mask of the `k` lowest bits is the remainder by `2 ^ k`.
pub bit_and-mask : (k a : ℕ) → bit_and a (ones k) ≡ a % 2 ^ k
bit_and-mask zero a = omega (arith, bit_and-zero a a (omega arith))
bit_and-mask (suc k) a =
    rw (two_power k, halve (2 ^ k) a (one-le-pow k 2 (omega arith)))
      (omega (
        arith,
        bit_and_step a (2 * 2 ^ k - 1),
        one-le-pow k 2,
        bit_and-mask k (a / 2),
        ap (λ (m : ℕ). bit_and (a / 2) m) half_mask,
      ))
  where
    half_mask : (2 * 2 ^ k - 1) / 2 ≡ 2 ^ k - 1
    half_mask = omega (arith, one-le-pow k 2)

-- An exclusive or needs no more bits than its operands.
pub bit_xor-lt : (k a b : ℕ) → a < 2 ^ k → b < 2 ^ k → bit_xor a b < 2 ^ k
bit_xor-lt zero zero zero p q = omega arith
bit_xor-lt zero (suc a) b p q = absurd (omega arith)
bit_xor-lt zero zero (suc b) p q = absurd (omega arith)
bit_xor-lt (suc k) a b p q = omega (
  arith,
  two_power k,
  bit_xor_step a b,
  differ-le-one a b,
  bit_xor-lt k (a / 2) (b / 2) (omega (arith, two_power k)) (omega (arith, two_power k)),
)

bit_or-zero : (k a : ℕ) → a ≤ k → bit_or a 0 ≡ a
bit_or-zero k zero h = refl
bit_or-zero zero (suc a) h = absurd (omega arith)
bit_or-zero (suc k) (suc a) h =
    omega (arith, bit_or_step (suc a) 0, bit_or-zero k (suc a / 2) (omega arith))

-- `(s << 1) | b` for one bit `b`
pub bit_or-double : (s b : ℕ) → b < 2 → bit_or (s * 2) b ≡ s * 2 + b
bit_or-double s b h = ground (arith, bit_or_step (s * 2) b, bit_or-zero s s (omega arith), halves)
  where
    halves : (s * 2 / 2 ≡ s) × (b / 2 ≡ 0) × (s * 2 % 2 ≡ 0) × (b % 2 ≡ b)
    halves = omega arith

pub power_pos : (k : ℕ) → 0 < 2 ^ k
power_pos k = one-le-pow k 2 (omega arith)

pub pow-add : (m n : ℕ) → 2 ^ (n + m) ≡ 2 ^ m * 2 ^ n
pow-add m zero = let e : 0 + m ≡ m = omega arith in rw e (omega arith)
pow-add m (suc n) =
    let e : suc n + m ≡ suc (n + m) = omega arith in
    rw e (omega (arith, pow-suc 2 (n + m), pow-add m n, ap (λ (t : ℕ). 2 ^ m * t) (pow-suc 2 n)))

-- Over a small range, every value is checked by evaluation.
unfoldable pub all_below : ℕ → (ℕ → Bool) → Bool
all_below zero p = true
all_below (suc n) p = p n && all_below n p

pub all_below-lt : (n : ℕ) (p : ℕ → Bool) (x : ℕ) → all_below n p ≡ true → x < n → p x ≡ true
unfolding all_below
all_below-lt zero p x every within = absurd (omega arith)
all_below-lt (suc n) p x every within = ground (arith, all_below-lt n p x)
